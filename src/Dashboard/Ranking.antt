-- ===== src/Dashboard/Ranking.antt =====
-- dashboard.service.ts: the rankings of services and of customers.
use turno_flow.Prelude.{
  ℕ, ◌+◌, ◌≤◌, ◌<◌, ◌≡◌, ◌≢◌, refl, ◌∙◌, arith, List, [], ◌∷◌, Bool, true, not, ◌&&◌, Bool-cases,
  inl, inr, count, length, if◌then◌else◌, ltb, ◌==◌, keep, All, All-In, All-of_each, keep-In_iff,
  Ordered, take, take-cases, sort_by, sort_by-In, In, ◌⊎◌, ◌↔◌, length-take, take-All, take-Ordered,
  sort_by-All, sort_by-Ordered,
}
use turno_flow.Text.{Text}
use turno_flow.Store.Sound.{All-map}
use turno_flow.Dashboard.{
  MonthAppointment, Tally, bump, tally, tallies, reduce, is_cancelled, ranks_before, top_services,
  recurring_customers,
}

times_of : ℕ → List Tally → ℕ
times_of k [] = 0
times_of k (t ∷ ts) = if t.key == k then t.times else times_of k ts

abbrev Keyed : List Tally → Type 0
Keyed ts = Ordered (λ a b. a.key ≢ b.key) ts

bump-All :
    (k key : ℕ) (name : Text) (ts : List Tally)
    → k ≢ key
    → All (λ t. k ≢ t.key) ts
    → All (λ t. k ≢ t.key) (bump key name ts)
bump-All k key name [] n h = (n, tt)
bump-All k key name (t ∷ ts) n h = elim (Bool-cases (t.key == key)) [
  | inl e ↦ rw e (n, h.1)
  | inr e ↦ rw e (h.0, bump-All k key name ts n h.1)
]

bump-Keyed : (key : ℕ) (name : Text) (ts : List Tally) → Keyed ts → Keyed (bump key name ts)
bump-Keyed key name [] h = (tt, tt)
bump-Keyed key name (t ∷ ts) h = elim (Bool-cases (t.key == key)) [
  | inl e ↦ let same : t.key ≡ key = ground arith in rw e (rw same at h)
  | inr e ↦ rw e (bump-All t.key key name ts (ground arith) h.0, bump-Keyed key name ts h.1)
]

abbrev Positive : List Tally → Type 0
Positive ts = All (λ t. 1 ≤ t.times) ts

bump-Positive :
    (key : ℕ) (name : Text) (ts : List Tally) → Positive ts → Positive (bump key name ts)
bump-Positive key name [] h = (omega arith, tt)
bump-Positive key name (t ∷ ts) h = elim (Bool-cases (t.key == key)) [
  | inl e ↦ rw e (omega arith, h.1)
  | inr e ↦ rw e (h.0, bump-Positive key name ts h.1)
]

times_of-bump :
    (k key : ℕ) (name : Text) (ts : List Tally)
    → times_of k (bump key name ts) ≡ times_of k ts + (if key == k then 1 else 0)
unfolding times_of
times_of-bump k key name [] = ground arith
times_of-bump k key name (t ∷ ts) = ground (arith, times_of-bump k key name ts)

-- In a table with distinct keys every entry is the one of its key.
own_times : (t : Tally) (ts : List Tally) → Keyed ts → In t ts → t.times ≡ times_of t.key ts
unfolding times_of
own_times t [] h m = elim m [ ]
own_times t (x ∷ xs) h (inl e) = rw e (ground arith)
own_times t (x ∷ xs) h (inr m) =
    let apart : x.key ≢ t.key = All-In (λ y. x.key ≢ y.key) xs h.0 m in
    ground (arith, own_times t xs h.1 m)

found_times :
    (k : ℕ) (ts : List Tally)
    → 0 < times_of k ts
    → (t : Tally) × In t ts × (t.key ≡ k) × (t.times ≡ times_of k ts)
unfolding times_of
found_times k [] h = absurd (omega arith)
found_times k (t ∷ ts) h = elim (Bool-cases (t.key == k)) [
  | inl e ↦ (t, inl refl, ground arith, ground arith)
  | inr e ↦ let (u, m, q, r) = found_times k ts (ground arith) in (u, inr m, q, ground arith)
]

module _ (key : MonthAppointment → ℕ) (name : MonthAppointment → Text) where
  -- An appointment that counts for `k`.
  abbrev pub counts_for : ℕ → MonthAppointment → Bool
  counts_for k a = not (is_cancelled a.status) && key a == k

  reduce-Keyed :
      (rows : List MonthAppointment) (ts : List Tally)
      → Keyed ts
      → Keyed (reduce (tally key name) ts rows)
  reduce-Keyed [] ts h = h
  reduce-Keyed (a ∷ rows) ts h = elim (Bool-cases (is_cancelled a.status)) [
    | inl e ↦ rw e (reduce-Keyed rows ts h)
    | inr e ↦ rw e (reduce-Keyed rows (bump (key a) (name a) ts) (bump-Keyed (key a) (name a) ts h))
  ]

  reduce-Positive :
      (rows : List MonthAppointment) (ts : List Tally)
      → Positive ts
      → Positive (reduce (tally key name) ts rows)
  reduce-Positive [] ts h = h
  reduce-Positive (a ∷ rows) ts h = elim (Bool-cases (is_cancelled a.status)) [
    | inl e ↦ rw e (reduce-Positive rows ts h)
    | inr e ↦
        rw e (reduce-Positive rows (bump (key a) (name a) ts) (bump-Positive (key a) (name a) ts h))
  ]

  times_of-reduce :
      (k : ℕ) (rows : List MonthAppointment) (ts : List Tally)
      → times_of k (reduce (tally key name) ts rows) ≡ times_of k ts + count (counts_for k) rows
  times_of-reduce k [] ts = omega arith
  times_of-reduce k (a ∷ rows) ts = elim (Bool-cases (is_cancelled a.status)) [
    | inl e ↦ rw e (omega (arith, times_of-reduce k rows ts))
    | inr e ↦ rw e (
        omega (
          arith,
          times_of-reduce k rows (bump (key a) (name a) ts),
          times_of-bump k (key a) (name a) ts,
        ))
  ]

  -- A ranking of at most five entries: the most frequent first, each with the number of its
  -- appointments that are not cancelled, and nothing left out that is more frequent than an entry.
  pub record Ranked (least : ℕ) (rows : List MonthAppointment) (entries : List Tally) : Type 0 where
    pub few : length entries ≤ 5
    pub ordered : Ordered (λ l r. r.times ≤ l.times) entries
    pub exact : All (λ t. (t.times ≡ count (counts_for t.key) rows) × (least ≤ t.times)) entries
    pub complete :
        (k : ℕ)
        → (count (counts_for k) rows < least)
          ⊎ ((t : Tally) × In t entries × (t.key ≡ k))
          ⊎ ((length entries ≡ 5) × All (λ t. count (counts_for k) rows ≤ t.times) entries)

  ranked :
      (collate : Text → Text → Bool) (least : ℕ) (rows : List MonthAppointment) (ts : List Tally)
      → 0 < least
      → ((t : Tally) → In t ts ↔ (In t (tallies key name rows) × (least ≤ t.times)))
      → Ranked least rows (take 5 (sort_by (ranks_before collate) ts))
  unfolding times_of
  ranked collate least rows ts some_needed kept =
      let keyed : Keyed (tallies key name rows) = reduce-Keyed rows [] tt in
      let times : (k : ℕ) → times_of k (tallies key name rows) ≡ count (counts_for k) rows =
        λ k. omega (arith, times_of-reduce k rows []) in
      let sorted =
        sort_by-Ordered (ranks_before collate) (λ l r. r.times ≤ l.times) (λ a b c h k. omega arith)
          (λ a b h. ground arith) (λ a b h. ground arith) ts in
      record {
        few = length-take 5 (sort_by (ranks_before collate) ts);
        ordered =
            take-Ordered (λ l r. r.times ≤ l.times) 5 (sort_by (ranks_before collate) ts) sorted;
        exact = take-All _ 5 (sort_by (ranks_before collate) ts) (
            sort_by-All (ranks_before collate)
              (λ t. (t.times ≡ count (counts_for t.key) rows) × (least ≤ t.times)) ts
              (All-of_each _ ts (λ t m. (
                own_times t (tallies key name rows) keyed ((kept t).0 m).0 ∙ times t.key,
                ((kept t).0 m).1,
              ))));
        complete = λ k. elim (Bool-cases (ltb (count (counts_for k) rows) least)) [
          | inl rare ↦ inl (ground arith)
          | inr often ↦
              let l : least ≤ count (counts_for k) rows = ground arith in
              let (t, m, e, q) = found_times k (tallies key name rows) (omega (arith, times k)) in
              let m' =
                sort_by-In (ranks_before collate) t ts ((kept t).1 (m, omega (arith, times k))) in
              elim (take-cases (λ l r. r.times ≤ l.times) 5 t (sort_by (ranks_before collate) ts)
                sorted m') [
                  | inl r ↦ inr (inl (t, r, e))
                  | inr (full, above) ↦
                      inr (inr (full, All-map _ _ _ above (λ u h. omega (arith, times k))))
                ]
        ];
      }

-- The ranking of services has at most five entries, those with the most appointments first, each
-- with the number of its service's appointments that are not cancelled. A service that it leaves out
-- has no such appointment, or five others are listed with at least as many.
pub top_services-Ranked :
    (collate : Text → Text → Bool) (rows : List MonthAppointment)
    → Ranked (λ a. a.service_id) (λ a. a.service_name) 1 rows (top_services collate rows)
unfolding top_services
top_services-Ranked collate rows =
    let ts = tallies (λ a. a.service_id) (λ a. a.service_name) rows in
    let positive = reduce-Positive (λ a. a.service_id) (λ a. a.service_name) rows [] tt in
    ranked (λ a. a.service_id) (λ a. a.service_name) collate 1 rows ts (omega arith)
      (λ t. (λ m. (m, All-In (λ u. 1 ≤ u.times) ts positive m), λ p. p.0))

-- The ranking of customers counts each customer's appointments that are not cancelled, for those
-- who have two of them or more.
pub recurring_customers-Ranked :
    (collate : Text → Text → Bool) (rows : List MonthAppointment)
    → Ranked (λ a. a.customer_id) (λ a. a.customer_name) 2 rows (recurring_customers collate rows)
unfolding recurring_customers
recurring_customers-Ranked collate rows =
    let ts = tallies (λ a. a.customer_id) (λ a. a.customer_name) rows in
    ranked (λ a. a.customer_id) (λ a. a.customer_name) collate 2 rows (keep (λ t. ltb 1 t.times) ts)
      (omega arith)
      (λ t.
        let (to, from) = keep-In_iff (λ (u : Tally). ltb 1 u.times) t ts in
        (λ m. ((to m).0, two t (to m).1), λ p. from (p.0, ground arith)))
  where
    two : (t : Tally) → ltb 1 t.times ≡ true → 2 ≤ t.times
    two t h = ground arith
