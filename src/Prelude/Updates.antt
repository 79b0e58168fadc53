-- ===== src/Prelude/Updates.antt =====
-- Tables as lists of rows with a key: what an update by key, or a new row, does to predicates on
-- the rows and to counts of them.
use Prim.Native.Nat.{ℕ, ◌+◌}
use mathlib.Core.Path.{◌≡◌, refl, sym, ap, subst, subst⁻¹, ◌∙◌}
use mathlib.Core.Logic.{◌⊎◌, ◌≢◌, inl, inr}
use mathlib.Core.Bool.{Bool, true, false}
use mathlib.Core.Option.{some}
use mathlib.Core.List.{List, [], ◌∷◌, ◌++◌}
use native.Mathlib.Omega.{arith}
use turno_flow.Prelude.Tests.{◌==◌, if◌then◌else◌, Bool-cases}
use turno_flow.Prelude.Lists.{count, find_first, update_where, In, All, All-In, All-append, Ordered}

module _ {ℓ} {A : Type ℓ} (p : A → Bool) (f : A → A) where
  pub In-update_where :
      (x : A) (xs : List A)
      → In x (update_where p f xs)
      → (In x xs × (p x ≡ false)) ⊎ ((y : A) × In y xs × (p y ≡ true) × (x ≡ f y))
  In-update_where x [] m = elim m [ ]
  In-update_where x (y ∷ ys) (inl e) = elim (Bool-cases (p y)) [
    | inl h ↦ inr (y, inl refl, h, rw h at e)
    | inr h ↦ let same : x ≡ y = rw h at e in inl (inl same, rw same h)
  ]
  In-update_where x (y ∷ ys) (inr m) = elim (In-update_where x ys m) [
    | inl (m', h) ↦ inl (inr m', h)
    | inr (z, m', h, e) ↦ inr (z, inr m', h, e)
  ]

  pub All-update_where {κ μ} :
      (P : A → Type κ) (Q : A → Type μ) (xs : List A)
      → All P xs
      → ((x : A) → P x → p x ≡ true → Q (f x))
      → ((x : A) → P x → p x ≡ false → Q x)
      → All Q (update_where p f xs)
  All-update_where P Q [] h hit miss = tt
  All-update_where P Q (x ∷ xs) h hit miss = elim (Bool-cases (p x)) [
    | inl e ↦ rw e (hit x h.0 e, All-update_where P Q xs h.1 hit miss)
    | inr e ↦ rw e (miss x h.0 e, All-update_where P Q xs h.1 hit miss)
  ]

  -- A row that an update does not ask for stays.
  pub In-update_where_other :
      {x : A} (xs : List A) → In x xs → p x ≡ false → In x (update_where p f xs)
  In-update_where_other {x} [] m h = elim m [ ]
  In-update_where_other {x} (y ∷ ys) (inl e) h = inl (rw (← e, h) refl)
  In-update_where_other {x} (y ∷ ys) (inr m) h = inr (In-update_where_other ys m h)

  -- A query after an update of the rows that it asks for.
  pub find_first-update_where :
      (xs : List A) {a : A}
      → ((x : A) → p x ≡ true → p (f x) ≡ true)
      → find_first p xs ≡ some a
      → find_first p (update_where p f xs) ≡ some (f a)
  find_first-update_where [] {a} keeps h = absurd (cc h)
  find_first-update_where (x ∷ xs) {a} keeps h = elim (Bool-cases (p x)) [
    | inl e ↦
        let same : some x ≡ some a = rw e at h in let stays = keeps x e in rw (e, stays) (cc same)
    | inr e ↦ rw (e, e) (find_first-update_where xs keeps (rw e at h))
  ]

  -- A query for some of the rows that an update changes and that it does not tell apart.
  pub find_first-update_within :
      (q : A → Bool) (xs : List A) {a : A}
      → ((x : A) → q x ≡ true → p x ≡ true)
      → ((x : A) → q (f x) ≡ q x)
      → find_first q xs ≡ some a
      → find_first q (update_where p f xs) ≡ some (f a)
  find_first-update_within q [] {a} within keeps h = absurd (cc h)
  find_first-update_within q (x ∷ xs) {a} within keeps h = elim (Bool-cases (q x)) [
    | inl e ↦ let same : some x ≡ some a = rw e at h in rw (within x e, keeps x, e) (cc same)
    | inr e ↦
        let miss : q (if p x then f x else x) ≡ false = elim (Bool-cases (p x)) [
          | inl d ↦ rw (d, keeps x) e
          | inr d ↦ rw d e
        ] in
        rw miss (find_first-update_within q xs within keeps (rw e at h))
  ]

  -- A query whose first row is updated, by an update that the query does not see.
  pub find_first-update_where_own :
      (q : A → Bool) (xs : List A) {a : A}
      → ((x : A) → q (f x) ≡ q x)
      → p a ≡ true
      → find_first q xs ≡ some a
      → find_first q (update_where p f xs) ≡ some (f a)
  find_first-update_where_own q [] {a} keeps own h = absurd (cc h)
  find_first-update_where_own q (x ∷ xs) {a} keeps own h = elim (Bool-cases (q x)) [
    | inl e ↦
        let same : x ≡ a = ground arith in
        let hit : p x ≡ true = subst⁻¹ (λ y. p y ≡ true) same own in
        rw (hit, keeps x, e) (ap (λ y. some (f y)) same)
    | inr e ↦
        let miss : q (if p x then f x else x) ≡ false = elim (Bool-cases (p x)) [
          | inl d ↦ rw (d, keeps x) e
          | inr d ↦ rw d e
        ] in
        rw miss (find_first-update_where_own q xs keeps own (rw e at h))
  ]

  -- An update that keeps the key keeps the keys distinct.
  pub update_where-Ordered :
      (key : A → ℕ) (xs : List A)
      → ((x : A) → p x ≡ true → key (f x) ≡ key x)
      → Ordered (λ a b. key a ≢ key b) xs
      → Ordered (λ a b. key a ≢ key b) (update_where p f xs)
  update_where-Ordered key [] keeps h = tt
  update_where-Ordered key (x ∷ xs) keeps h = elim (Bool-cases (p x)) [
    | inl e ↦ rw e (
      All-update_where (λ b. key x ≢ key b) (λ b. key (f x) ≢ key b) xs h.0
          (λ y n q r. n (cc (keeps x e, keeps y q, r))) (λ y n q r. n (cc (keeps x e, r))),
      update_where-Ordered key xs keeps h.1,
    )
    | inr e ↦ rw e (
      All-update_where (λ b. key x ≢ key b) (λ b. key x ≢ key b) xs h.0
          (λ y n q r. n (cc (keeps y q, r))) (λ y n q r. n r),
      update_where-Ordered key xs keeps h.1,
    )
  ]

module _ {ℓ} {A : Type ℓ} where
  pub count-append : (q : A → Bool) (xs ys : List A) → count q (xs ++ ys) ≡ count q xs + count q ys
  count-append q [] ys = omega arith
  count-append q (x ∷ xs) ys = omega (arith, count-append q xs ys)

  pub count_none : (q : A → Bool) (xs : List A) → All (λ x. q x ≡ false) xs → count q xs ≡ 0
  count_none q [] h = refl
  count_none q (x ∷ xs) h = rw (h.0) (omega (arith, count_none q xs h.1))

  pub Ordered-append :
      (R : A → A → Type 0) (xs : List A) (y : A)
      → Ordered R xs
      → All (λ x. R x y) xs
      → Ordered R (xs ++ y ∷ [])
  Ordered-append R [] y h k = (tt, tt)
  Ordered-append R (x ∷ xs) y h k =
      (All-append (R x) xs (y ∷ []) h.0 (k.0, tt), Ordered-append R xs y h.1 k.1)

  module _ (key : A → ℕ) (k : ℕ) where
    abbrev pub has_key : A → Bool
    has_key x = key x == k

    -- Where keys are distinct, a query by the key of a row finds the row.
    pub find_first-In :
        (xs : List A) {a : A}
        → Ordered (λ x y. key x ≢ key y) xs
        → In a xs
        → key a ≡ k
        → find_first has_key xs ≡ some a
    find_first-In [] {a} h m e = elim m [ ]
    find_first-In (x ∷ xs) {a} h (inl same) e =
        let hit : has_key x ≡ true = subst (λ y. has_key y ≡ true) same (ground arith) in
        rw (hit, same) refl
    find_first-In (x ∷ xs) {a} h (inr m) e =
        let apart : key x ≢ key a = All-In (λ y. key x ≢ key y) xs h.0 m in
        let miss : has_key x ≡ false = ground arith in rw miss (find_first-In xs h.1 m e)

    update_where_absent :
        (f : A → A) (xs : List A) → All (λ x. k ≢ key x) xs → update_where has_key f xs ≡ xs
    update_where_absent f [] h = refl
    update_where_absent f (x ∷ xs) h = ground (arith, update_where_absent f xs h.1)

    abbrev Goal : (q : A → Bool) (f : A → A) → A → List A → A → Type 0
    Goal q f x xs old =
        (if q (f x) then 1 else 0) + count q xs + (if q old then 1 else 0)
        ≡ (if q x then 1 else 0) + count q xs + (if q (f old) then 1 else 0)

    -- Where keys are distinct, an update by key changes one row of a count.
    pub count-update_where :
        (q : A → Bool) (f : A → A) (xs : List A) {old : A}
        → Ordered (λ a b. key a ≢ key b) xs
        → find_first has_key xs ≡ some old
        → count q (update_where has_key f xs) + (if q old then 1 else 0)
          ≡ count q xs + (if q (f old) then 1 else 0)
    count-update_where q f [] {old} h e = absurd (cc e)
    count-update_where q f (x ∷ xs) {old} h e = elim (Bool-cases (has_key x)) [
      | inl hit ↦
          let same : x ≡ old = ground arith in
          let is_k : key x ≡ k = ground arith in
          let absent : update_where has_key f xs ≡ xs =
            update_where_absent f xs (subst (λ n. All (λ b. n ≢ key b) xs) is_k h.0) in
          rw (hit, absent) (subst (Goal q f x xs) same (omega arith))
      | inr miss ↦ rw miss (omega (arith, count-update_where q f xs h.1 (rw miss at e)))
    ]

module _ {ℓ} {A : Type ℓ} (key : A → ℕ) where
  -- Where keys are distinct, rows with one key are one row.
  pub same_row :
      (xs : List A) {a b : A}
      → Ordered (λ x y. key x ≢ key y) xs
      → In a xs
      → In b xs
      → key a ≡ key b
      → a ≡ b
  same_row xs {a} {b} h ma mb e =
      let found : some a ≡ some b =
        sym (find_first-In key (key b) xs h ma e) ∙ find_first-In key (key b) xs h mb refl in
      cc found
