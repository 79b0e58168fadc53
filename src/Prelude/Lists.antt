-- ===== src/Prelude/Lists.antt =====
-- Lists measured by native numbers, tests over lists, and predicates on all or some entries.
use Prim.Native.Nat.{ℕ, suc, ◌+◌}
use mathlib.Core.Path.{◌≡◌, refl, sym, subst⁻¹}
use mathlib.Core.Logic.{◌⊎◌, ◌↔◌, inl, inr}
use mathlib.Core.Bool.{Bool, true, false, ◌||◌}
use mathlib.Core.Option.{Option, none, some}
use mathlib.Core.List.{List, [], ◌∷◌, ◌++◌}
use native.Mathlib.Omega.{arith}
use turno_flow.Prelude.Tests.{Bool-cases, if◌then◌else◌}

module _ {ℓ} {A : Type ℓ} where
  abbrev pub length : List A → ℕ
  length [] = 0
  length (x ∷ xs) = suc (length xs)

  abbrev pub keep : (A → Bool) → List A → List A
  keep p [] = []
  keep p (x ∷ xs) = let rest = keep p xs in if p x then x ∷ rest else rest

  abbrev pub any : (A → Bool) → List A → Bool
  any p [] = false
  any p (x ∷ xs) = p x || any p xs

  abbrev pub find_first : (A → Bool) → List A → Option A
  find_first p [] = none
  find_first p (x ∷ xs) = if p x then some x else find_first p xs

  abbrev pub count : (A → Bool) → List A → ℕ
  count p [] = 0
  count p (x ∷ xs) = (if p x then 1 else 0) + count p xs

  abbrev pub update_where : (A → Bool) → (A → A) → List A → List A
  update_where p f [] = []
  update_where p f (x ∷ xs) = (if p x then f x else x) ∷ update_where p f xs

abbrev pub All {ℓ κ} : {A : Type ℓ} → (A → Type κ) → List A → Type κ
All P [] = Unit
All P (x ∷ xs) = P x × All P xs

-- No value, at any level.
pub data Never {ℓ} : Type ℓ where

-- Membership by recursion, which the tactics take apart.
abbrev pub In {ℓ} : {A : Type ℓ} → A → List A → Type ℓ
In a [] = Never
In a (x ∷ xs) = (a ≡ x) ⊎ In a xs

module _ {ℓ} {A : Type ℓ} where
  pub In-append_iff : (a : A) (xs ys : List A) → In a (xs ++ ys) ↔ (In a xs ⊎ In a ys)
  In-append_iff a [] ys = (inr, λ d. elim d [ inl n ↦ elim n [ ] | inr m ↦ m ])
  In-append_iff a (x ∷ xs) ys =
      let (to, from) = In-append_iff a xs ys in
      (
        λ m. elim m [
          | inl e ↦ inl (inl e)
          | inr r ↦ elim (to r) [ inl l ↦ inl (inr l) | inr q ↦ inr q ]
        ],
        λ d. elim d [
          | inl l ↦ elim l [ inl e ↦ inl e | inr r ↦ inr (from (inl r)) ]
          | inr q ↦ inr (from (inr q))
        ],
      )

module _ {ℓ} {A : Type ℓ} where
  pub In-concat : (x a : A) (xs : List A) → In x (xs ++ a ∷ []) → In x xs ⊎ (x ≡ a)
  In-concat x a xs m = elim ((In-append_iff x xs (a ∷ [])).0 m) [
    | inl l ↦ inl l
    | inr (inl e) ↦ inr e
    | inr (inr n) ↦ elim n [ ]
  ]

-- Each entry stands in the relation to all that follow.
abbrev pub Ordered {ℓ} : {A : Type ℓ} → (A → A → Type 0) → List A → Type ℓ
Ordered R [] = Unit
Ordered R (x ∷ xs) = All (R x) xs × Ordered R xs

module _ {ℓ κ} {A : Type ℓ} (P : A → Type κ) where
  pub All-append : (xs ys : List A) → All P xs → All P ys → All P (xs ++ ys)
  All-append [] ys h k = k
  All-append (x ∷ xs) ys h k = (h.0, All-append xs ys h.1 k)

  pub All-In : {a : A} (xs : List A) → All P xs → In a xs → P a
  All-In [] h m = elim m [ ]
  All-In (x ∷ xs) h (inl e) = subst⁻¹ P e h.0
  All-In (x ∷ xs) h (inr m) = All-In xs h.1 m

  pub All-of_each : (xs : List A) → ((a : A) → In a xs → P a) → All P xs
  All-of_each [] h = tt
  All-of_each (x ∷ xs) h = (h x (inl refl), All-of_each xs (λ a m. h a (inr m)))

module _ {ℓ} {A : Type ℓ} (p : A → Bool) where
  pub any_of_In : {a : A} (xs : List A) → In a xs → p a ≡ true → any p xs ≡ true
  any_of_In [] m h = elim m [ ]
  any_of_In (x ∷ xs) (inl e) h = rw (← e, h)
  any_of_In (x ∷ xs) (inr m) h = ground (arith, any_of_In xs m h)

  pub any_witness : (xs : List A) → any p xs ≡ true → (a : A) × In a xs × (p a ≡ true)
  any_witness [] h = absurd (cc h)
  any_witness (x ∷ xs) h = elim (Bool-cases (p x)) [
    | inl e ↦ (x, inl refl, e)
    | inr e ↦ let (a, m, q) = any_witness xs (rw e at h) in (a, inr m, q)
  ]

  pub find_first_sound : (xs : List A) {a : A} → find_first p xs ≡ some a → In a xs × (p a ≡ true)
  find_first_sound [] {a} h = absurd (cc h)
  find_first_sound (x ∷ xs) {a} h = elim (Bool-cases (p x)) [
    | inl e ↦ let same : x ≡ a = ground arith in (inl (sym same), rw (← same) e)
    | inr e ↦ let (m, q) = find_first_sound xs (rw e at h) in (inr m, q)
  ]

  pub keep-In_iff : (a : A) (xs : List A) → In a (keep p xs) ↔ (In a xs × (p a ≡ true))
  keep-In_iff a [] = (λ m. elim m [ ], λ m. elim (m.0) [ ])
  keep-In_iff a (x ∷ xs) = elim (Bool-cases (p x)) [
    | inl e ↦
        let (to, from) = keep-In_iff a xs in
        rw e (
          λ m. elim m [ inl q ↦ (inl q, rw q e) | inr r ↦ (inr (to r).0, (to r).1) ],
          λ m. elim (m.0) [ inl q ↦ inl q | inr r ↦ inr (from (r, m.1)) ],
        )
    | inr e ↦
        let (to, from) = keep-In_iff a xs in
        rw e (
          λ m. (inr (to m).0, (to m).1),
          λ m. elim (m.0) [ inl q ↦ absurd (cc (e, m.1, q)) | inr r ↦ from (r, m.1) ],
        )
  ]
