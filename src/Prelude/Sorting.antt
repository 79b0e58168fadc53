-- ===== src/Prelude/Sorting.antt =====
-- `array.sort` with a comparator, as a stable sort by insertion, and `array.slice(0, n)`.
use Prim.Native.Nat.{ℕ, zero, suc, ◌≤◌}
use mathlib.Core.Path.{◌≡◌, refl, ap, subst⁻¹}
use mathlib.Core.Logic.{◌⊎◌, inl, inr}
use mathlib.Core.Bool.{Bool, true, false}
use mathlib.Core.List.{List, [], ◌∷◌}
use native.Mathlib.Omega.{arith}
use turno_flow.Prelude.Tests.{Bool-cases}
use turno_flow.Prelude.Lists.{length, All, All-In, In, Ordered}

module _ {A : Type 0} where
  abbrev pub take : ℕ → List A → List A
  take zero xs = []
  take (suc n) [] = []
  take (suc n) (x ∷ xs) = x ∷ take n xs

  pub length-take : (n : ℕ) (xs : List A) → length (take n xs) ≤ n
  length-take zero xs = omega arith
  length-take (suc n) [] = omega arith
  length-take (suc n) (x ∷ xs) = omega (arith, length-take n xs)

  -- An entry of an ordered list is taken, or as many as asked for come before it.
  pub take-cases :
      (R : A → A → Type 0) (n : ℕ) (a : A) (xs : List A)
      → Ordered R xs
      → In a xs
      → In a (take n xs) ⊎ ((length (take n xs) ≡ n) × All (λ b. R b a) (take n xs))
  take-cases R zero a xs h m = inr (refl, tt)
  take-cases R (suc n) a [] h m = elim m [ ]
  take-cases R (suc n) a (x ∷ xs) h (inl e) = inl (inl e)
  take-cases R (suc n) a (x ∷ xs) h (inr m) = elim (take-cases R n a xs h.1 m) [
    | inl r ↦ inl (inr r)
    | inr (e, l) ↦ inr (ap suc e, (All-In (R x) xs h.0 m, l))
  ]

  pub take-All : (P : A → Type 0) (n : ℕ) (xs : List A) → All P xs → All P (take n xs)
  take-All P zero xs h = tt
  take-All P (suc n) [] h = tt
  take-All P (suc n) (x ∷ xs) h = (h.0, take-All P n xs h.1)

  pub take-Ordered :
      (R : A → A → Type 0) (n : ℕ) (xs : List A) → Ordered R xs → Ordered R (take n xs)
  take-Ordered R zero xs h = tt
  take-Ordered R (suc n) [] h = tt
  take-Ordered R (suc n) (x ∷ xs) h = (take-All (R x) n xs h.0, take-Ordered R n xs h.1)

-- `before a b` is that `a` may stand before `b`.
module _ {A : Type 0} (before : A → A → Bool) where
  abbrev pub insert_by : A → List A → List A
  insert_by a [] = a ∷ []
  insert_by a (x ∷ xs) = elim (before a x) [ true ↦ a ∷ x ∷ xs | false ↦ x ∷ insert_by a xs ]

  abbrev pub sort_by : List A → List A
  sort_by [] = []
  sort_by (x ∷ xs) = insert_by x (sort_by xs)

  insert_first : (a x : A) (xs : List A) → before a x ≡ true → insert_by a (x ∷ xs) ≡ a ∷ x ∷ xs
  insert_first a x xs e = rw (insert_by, e) refl

  insert_later :
      (a x : A) (xs : List A) → before a x ≡ false → insert_by a (x ∷ xs) ≡ x ∷ insert_by a xs
  insert_later a x xs e = rw (insert_by, e) refl

  pub insert_by-All :
      (P : A → Type 0) (a : A) (xs : List A) → P a → All P xs → All P (insert_by a xs)
  insert_by-All P a [] p h = (p, tt)
  insert_by-All P a (x ∷ xs) p h = elim (Bool-cases (before a x)) [
    | inl e ↦ subst⁻¹ (All P) (insert_first a x xs e) (p, h)
    | inr e ↦ subst⁻¹ (All P) (insert_later a x xs e) (h.0, insert_by-All P a xs p h.1)
  ]

  pub insert_by-In : (c a : A) (xs : List A) → (c ≡ a) ⊎ In c xs → In c (insert_by a xs)
  insert_by-In c a [] d = d
  insert_by-In c a (x ∷ xs) d = elim (Bool-cases (before a x)) [
    | inl e ↦ subst⁻¹ (In c) (insert_first a x xs e) d
    | inr e ↦ subst⁻¹ (In c) (insert_later a x xs e) (elim d [
      | inl s ↦ inr (insert_by-In c a xs (inl s))
      | inr (inl s) ↦ inl s
      | inr (inr m) ↦ inr (insert_by-In c a xs (inr m))
    ])
  ]

  pub sort_by-In : (c : A) (xs : List A) → In c xs → In c (sort_by xs)
  sort_by-In c [] m = elim m [ ]
  sort_by-In c (x ∷ xs) (inl e) = insert_by-In c x (sort_by xs) (inl e)
  sort_by-In c (x ∷ xs) (inr m) = insert_by-In c x (sort_by xs) (inr (sort_by-In c xs m))

  pub sort_by-All : (P : A → Type 0) (xs : List A) → All P xs → All P (sort_by xs)
  sort_by-All P [] h = tt
  sort_by-All P (x ∷ xs) h = insert_by-All P x (sort_by xs) h.0 (sort_by-All P xs h.1)

  -- A transitive relation that the comparator decides between any two.
  module _ (R : A → A → Type 0) (trans : (a b c : A) → R a b → R b c → R a c)
      (yes : (a b : A) → before a b ≡ true → R a b)
      (no : (a b : A) → before a b ≡ false → R b a) where
    All-after : (a x : A) (xs : List A) → R a x → All (R x) xs → All (R a) xs
    All-after a x [] r h = tt
    All-after a x (y ∷ ys) r h = (trans a x y r h.0, All-after a x ys r h.1)

    insert_by-Ordered : (a : A) (xs : List A) → Ordered R xs → Ordered R (insert_by a xs)
    insert_by-Ordered a [] h = (tt, tt)
    insert_by-Ordered a (x ∷ xs) h = elim (Bool-cases (before a x)) [
      | inl e ↦
          subst⁻¹ (Ordered R) (insert_first a x xs e)
            ((yes a x e, All-after a x xs (yes a x e) h.0), h)
      | inr e ↦
          subst⁻¹ (Ordered R) (insert_later a x xs e)
            (insert_by-All (R x) a xs (no a x e) h.0, insert_by-Ordered a xs h.1)
    ]

    pub sort_by-Ordered : (xs : List A) → Ordered R (sort_by xs)
    sort_by-Ordered [] = tt
    sort_by-Ordered (x ∷ xs) = insert_by-Ordered x (sort_by xs) (sort_by-Ordered xs)

module _ {A : Type 0} (P Q S : A → Type 0) where
  pub All-both : (xs : List A) → All P xs → All Q xs → ((x : A) → P x → Q x → S x) → All S xs
  All-both [] h k f = tt
  All-both (x ∷ xs) h k f = (f x h.0 k.0, All-both xs h.1 k.1 f)

-- A finer order of entries that have a property.
pub Ordered-within :
    {A : Type 0} (P : A → Type 0) (R S : A → A → Type 0) (xs : List A)
    → All P xs
    → Ordered R xs
    → ((x y : A) → P x → P y → R x y → S x y)
    → Ordered S xs
Ordered-within P R S [] h o f = tt
Ordered-within P R S (x ∷ xs) h o f =
    (All-both P (R x) (S x) xs h.1 o.0 (λ y p r. f x y h.0 p r), Ordered-within P R S xs h.1 o.1 f)
