-- ===== src/Slug/Available.antt =====
-- businesses.service.ts: the loop over the candidates for a slug.
use turno_flow.Prelude.{
  ℕ, zero, suc, ◌+◌, ◌<◌, ◌≤◌, ◌≡◌, ◌≢◌, ◌⊎◌, inl, inr, refl, sym, ◌∙◌, ap, subst, arith, List, [],
  ◌∷◌, ◌++◌, map, true, false, Bool-cases, ok, conflict, require, bind_elim, ok-injective, ◌>>=◌,
  ◌==◌, any_witness, In, length,
}
use turno_flow.Text.{Text, text_eq, number}
use turno_flow.Text.Laws.{text_eq_sound}
use turno_flow.Time.{Runtime}
use turno_flow.Schema.{Db, Business}
use turno_flow.Slug.{to_slug, decimal, slug_candidate, is_taken, try_slugs, create_available_slug}

number-decimal : (n : ℕ) → n < 1000 → number (decimal n) ≡ n
number-decimal n h = ground arith

cancel_prefix : (base xs ys : Text) → base ++ xs ≡ base ++ ys → xs ≡ ys
cancel_prefix [] xs ys h = h
cancel_prefix (c ∷ cs) xs ys h = cancel_prefix cs xs ys (cc h)

own_extension : (base : Text) (c : ℕ) (xs : Text) → base ≢ base ++ c ∷ xs
own_extension [] c xs h = absurd (cc h)
own_extension (d ∷ ds) c xs h = own_extension ds c xs (cc h)

slug_candidate_injective :
    (base : Text) (i j : ℕ) → i < j → j < 100 → slug_candidate base i ≢ slug_candidate base j
slug_candidate_injective base zero zero l k h = absurd (omega arith)
slug_candidate_injective base zero (suc j) l k h = own_extension base b'-' (decimal (j + 2)) h
slug_candidate_injective base (suc i) zero l k h = absurd (omega arith)
slug_candidate_injective base (suc i) (suc j) l k h =
    let same : decimal (i + 2) ≡ decimal (j + 2) =
      cc (cancel_prefix base (b'-' ∷ decimal (i + 2)) (b'-' ∷ decimal (j + 2)) h) in
    let number_same : i + 2 ≡ j + 2 =
      sym (number-decimal (i + 2) (omega arith))
      ∙ ap number same
      ∙ number-decimal (j + 2) (omega arith) in
    absurd (omega arith)

-- A list without one of its entries.
record Without {ℓ} {A : Type ℓ} (a : A) (xs : List A) : Type ℓ where
  rest : List A
  shorter : length xs ≡ suc (length rest)
  kept : (x : A) → In x xs → x ≢ a → In x rest

without : {A : Type 0} (a : A) (xs : List A) → In a xs → Without a xs
without a [] m = elim m [ ]
without a (x ∷ xs) (inl e) = record {
  rest = xs;
  shorter = refl;
  kept = λ y m n. elim m [ inl e' ↦ absurd (n (e' ∙ sym e)) | inr r ↦ r ];
}
without a (x ∷ xs) (inr m) =
    let w = without a xs m in
    record {
      rest = x ∷ w.rest;
      shorter = ap suc w.shorter;
      kept = λ y k n. elim k [ inl e ↦ inl e | inr r ↦ inr (w.kept y r n) ];
    }

-- Distinct entries that all stand in a list are no more than the list is long.
pigeonhole :
    {A : Type 0} (f : ℕ → A) (n i : ℕ) (xs : List A)
    → ((j k : ℕ) → i ≤ j → j < k → k < i + n → f j ≢ f k)
    → ((j : ℕ) → i ≤ j → j < i + n → In (f j) xs)
    → n ≤ length xs
pigeonhole f zero i xs apart all = omega arith
pigeonhole f (suc n) i xs apart all =
    let w = without (f i) xs (all i (omega arith) (omega arith)) in
    let less : n ≤ length w.rest =
      pigeonhole f n (suc i) w.rest (λ j k le l u. apart j k (omega arith) l (omega arith))
        (λ j le u.
          w.kept (f j) (all j (omega arith) (omega arith))
            (λ e. apart i j (omega arith) (omega arith) (omega arith) (sym e))) in
    omega (arith, w.shorter)

is_taken-In :
    (db : Db) (slug : Text) → is_taken db slug ≡ true → In slug (map (λ b. b.slug) db.businesses)
is_taken-In db slug h =
    let (b, m, e) = any_witness (λ b. text_eq b.slug slug) db.businesses h in
    listed db.businesses b m (text_eq_sound b.slug slug e)
  where
    listed :
        (xs : List Business) (b : Business)
        → In b xs
        → b.slug ≡ slug
        → In slug (map (λ b. b.slug) xs)
    listed [] b m e = elim m [ ]
    listed (x ∷ xs) b (inl same) e = inl (sym e ∙ ap (λ b. b.slug) same)
    listed (x ∷ xs) b (inr m) e = inr (listed xs b m e)

-- What the loop returns, or that all the candidates that are left are taken.
pub record Chosen (db : Db) (base : Text) (n i : ℕ) (slug : Text) : Type 0 where
  pub place : ℕ
  pub late : i ≤ place
  pub early : place < i + n
  pub is_candidate : slug ≡ slug_candidate base place
  pub free : is_taken db slug ≡ false
  pub first : (j : ℕ) → i ≤ j → j < place → is_taken db (slug_candidate base j) ≡ true

abbrev AllTaken : Db → Text → ℕ → ℕ → Type 0
AllTaken db base n i = (j : ℕ) → i ≤ j → j < i + n → is_taken db (slug_candidate base j) ≡ true

-- A predicate that holds of the first number and of those above it.
extend_down : (P : ℕ → Type 0) (i : ℕ) → P i → (j : ℕ) → i ≤ j → (suc i ≤ j → P j) → P j
extend_down P i p j le above = elim (Bool-cases (i == j)) [
  | inl e ↦ let same : i ≡ j = ground arith in subst P same p
  | inr e ↦ above (ground arith)
]

try_slugs-cases :
    (db : Db) (base : Text) (n i : ℕ)
    → ((slug : Text) × (try_slugs db base n i ≡ ok slug) × Chosen db base n i slug)
      ⊎ AllTaken db base n i
unfolding try_slugs
try_slugs-cases db base zero i = inr (λ j le l. absurd (omega arith))
try_slugs-cases db base (suc n) i = elim (Bool-cases (is_taken db (slug_candidate base i))) [
  | inl taken ↦ elim (try_slugs-cases db base n (suc i)) [
    | inl (slug, e, c) ↦ inl (
      slug,
      rw (try_slugs, taken) e,
      record {
        place = c.place;
        late = omega (arith, c.late);
        early = omega (arith, c.early);
        is_candidate = c.is_candidate;
        free = c.free;
        first = λ j le l.
            extend_down (λ k. is_taken db (slug_candidate base k) ≡ true) i taken j le
              (λ le'. c.first j le' l);
      },
    )
    | inr all ↦ inr (λ j le l.
        extend_down (λ k. is_taken db (slug_candidate base k) ≡ true) i taken j le
          (λ le'. all j le' (omega arith)))
  ]
  | inr free ↦ inl (
    slug_candidate base i,
    rw (try_slugs, free) refl,
    record {
      place = i;
      late = omega arith;
      early = omega arith;
      is_candidate = refl;
      free = free;
      first = λ j le l. absurd (omega arith);
    },
  )
]

length-map : {A B : Type 0} (f : A → B) (xs : List A) → length (map f xs) ≡ length xs
length-map f [] = refl
length-map f (x ∷ xs) = ap suc (length-map f xs)

opened :
    (rt : Runtime) (normalize : Text → Text) (db : Db) (value : Text)
    → to_slug rt normalize value ≢ []
    → create_available_slug rt normalize db value ≡ try_slugs db (to_slug rt normalize value) 100 0
unfolding create_available_slug
opened rt normalize db value filled = rest (to_slug rt normalize value) filled
  where
    rest :
        (base : Text)
        → base ≢ []
        → (require
              (elim base [ [] ↦ false | c ∷ cs ↦ true ])
              (conflict "Business slug cannot be empty")
            >>= λ _. try_slugs db base 100 0)
          ≡ try_slugs db base 100 0
    rest [] n = absurd (n refl)
    rest (c ∷ cs) n = refl

crowded : (db : Db) (base : Text) → AllTaken db base 100 0 → 100 ≤ length db.businesses
crowded db base all =
    let many : 100 ≤ length (map (λ b. b.slug) db.businesses) =
      pigeonhole (slug_candidate base) 100 0 (map (λ b. b.slug) db.businesses)
        (λ j k le l u. slug_candidate_injective base j k l (omega arith))
        (λ j le u. is_taken-In db (slug_candidate base j) (all j le u)) in
    omega (arith, length-map (λ b. b.slug) db.businesses)

-- A name whose slug is not empty gets a slug whenever there are fewer than 100 businesses: the first
-- of the candidates for it that no business has.
pub create_available_slug-Chosen :
    (rt : Runtime) (normalize : Text → Text) (db : Db) (value : Text)
    → to_slug rt normalize value ≢ []
    → length db.businesses < 100
    → (slug : Text) × (create_available_slug rt normalize db value ≡ ok slug)
      × Chosen db (to_slug rt normalize value) 100 0 slug
unfolding create_available_slug
create_available_slug-Chosen rt normalize db value filled few =
    elim (try_slugs-cases db (to_slug rt normalize value) 100 0) [
      | inl (slug, e, c) ↦ (slug, opened rt normalize db value filled ∙ e, c)
      | inr all ↦ absurd (omega (arith, crowded db (to_slug rt normalize value) all))
    ]

-- A slug that the loop returns is free.
try_slugs_free :
    (db : Db) (base : Text) (n i : ℕ) {slug : Text}
    → try_slugs db base n i ≡ ok slug
    → is_taken db slug ≡ false
unfolding try_slugs
try_slugs_free db base zero i {slug} h = absurd (cc h)
try_slugs_free db base (suc n) i {slug} h =
    elim (Bool-cases (is_taken db (slug_candidate base i))) [
      | inl taken ↦ try_slugs_free db base n (suc i) (rw (try_slugs, taken) at h)
      | inr free ↦
          let same : slug_candidate base i ≡ slug = ok-injective (rw (try_slugs, free) at h) in
          subst (λ t. is_taken db t ≡ false) same free
    ]

pub create_available_slug_free :
    (rt : Runtime) (normalize : Text → Text) (db : Db) (value : Text) {slug : Text}
    → create_available_slug rt normalize db value ≡ ok slug
    → is_taken db slug ≡ false
unfolding create_available_slug
create_available_slug_free rt normalize db value {slug} h =
    bind_elim (require _ (conflict "Business slug cannot be empty")) _ h
      (λ _ e h'. try_slugs_free db (to_slug rt normalize value) 100 0 h')
