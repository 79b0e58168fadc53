-- ===== src/Reviews/Submission.antt =====
-- reviews.service.ts: one submission of a review, and what the public sees of it.
use turno_flow.Prelude.{
  ℕ, ◌≤◌, ◌≡◌, ◌⊎◌, inl, inr, refl, subst, arith, List, Bool, true, some, ok, err, not_found,
  conflict, or_throw, or_throw-eq-ok, require, bind_elim, ok-injective, leb, ◌==◌, keep,
  keep-In_iff, find_first, find_first-update_where_own, All, All-of_each, All-both, Ordered,
  Ordered-within, In, Never, length, take-All, take-Ordered, take-cases, length-take, sort_by,
  sort_by-All, sort_by-In, sort_by-Ordered, Bool-cases, Option-cases,
}
use turno_flow.Text.{Text}
use turno_flow.Reviews.{
  Review, SubmitReview, is_open, submitted, submit, is_highlight, submission_time, highlights,
}

-- A review is submitted once: a second submission with its token is refused, whatever it says.
pub submit-once :
    (now token : ℕ) (input : SubmitReview) (reviews after : List Review)
    → submit now token input reviews ≡ ok after
    → (later : ℕ) (again : SubmitReview)
    → submit later token again after ≡ err (conflict "Review already submitted")
unfolding submit
submit-once now token input reviews after h later again =
    let asked = λ (r : Review). r.token == token in
    bind_elim (or_throw (find_first asked reviews) (not_found "Review not found")) _ h (λ r e1 h1.
      bind_elim (require (is_open r.submitted_at) (conflict "Review already submitted")) _ h1
        (λ _ e2 h2.
          let own : (r.id == r.id) ≡ true = ground arith in
          let found = or_throw-eq-ok (find_first asked reviews) (not_found "Review not found") e1 in
          let closed : find_first asked after ≡ some (submitted now input r) =
            subst (λ xs. find_first asked xs ≡ some (submitted now input r)) (ok-injective h2)
              (find_first-update_where_own (λ x. x.id == r.id) (submitted now input) asked reviews
                (λ x. refl) own found) in
          rw (submit, closed) refl))

-- What makes a review a public highlight of the business.
pub record Highlight (business : ℕ) (r : Review) : Type 0 where
  pub of_business : r.business_id ≡ business
  pub commented : (c : Text) × (r.comment ≡ some c)
  pub rated : (n : ℕ) × (r.rating ≡ some n) × (4 ≤ n)
  pub sent : (t : ℕ) × (r.submitted_at ≡ some t)

-- The first review was submitted no later than the second.
abbrev pub NoLater : Review → Review → Type 0
NoLater r l = (s : ℕ) × (t : ℕ) × (r.submitted_at ≡ some s) × (l.submitted_at ≡ some t) × (s ≤ t)

is_highlight-Highlight :
    (business : ℕ) (r : Review) → is_highlight business r ≡ true → Highlight business r
is_highlight-Highlight business r h = elim (Option-cases r.comment) [
  | inl no_comment ↦ absurd (ground arith)
  | inr (c, commented) ↦ elim (Option-cases r.rating) [
    | inl no_rating ↦ absurd (ground arith)
    | inr (n, rated) ↦ elim (Option-cases r.submitted_at) [
      | inl pending ↦ absurd (ground arith)
      | inr (t, sent) ↦ record {
        of_business = ground arith;
        commented = (c, commented);
        rated = (n, rated, ground arith);
        sent = (t, sent);
      }
    ]
  ]
]

Highlight-is_highlight :
    (business : ℕ) (r : Review) → Highlight business r → is_highlight business r ≡ true
Highlight-is_highlight business r h =
    let (c, commented) = h.commented in
    let (n, rated, enough) = h.rated in
    let (t, sent) = h.sent in let own = h.of_business in rw (commented, rated, sent) (ground arith)

submission_time-NoLater :
    (business : ℕ) (l r : Review)
    → Highlight business l
    → Highlight business r
    → submission_time r ≤ submission_time l
    → NoLater r l
submission_time-NoLater business l r g h le =
    let (t, e) = g.sent in let (s, d) = h.sent in (s, t, d, e, rw (d, e) at le)

-- What the public sees of a review of the table: it is no highlight, or it is shown, or five
-- others are that were submitted no earlier.
abbrev pub Shown : ℕ → List Review → Review → Type 0
Shown business shown r =
    (Highlight business r → Never)
    ⊎ (In r shown ⊎ ((length shown ≡ 5) × All (λ l. NoLater r l) shown))

module _ (business : ℕ) (reviews : List Review) where
  abbrev kept : List Review
  kept = keep (is_highlight business) reviews

  abbrev later : Review → Review → Bool
  later l r = leb (submission_time r) (submission_time l)

  abbrev By : Review → Review → Type 0
  By l r = submission_time r ≤ submission_time l

  abbrev Listed : Review → Type 0
  Listed r = In r reviews × Highlight business r

  highlights-Ordered : Ordered By (sort_by later kept)
  highlights-Ordered =
      sort_by-Ordered later By (λ a b c h k. omega arith) (λ a b h. ground arith)
        (λ a b h. ground arith) kept

  highlights-Listed : All Listed (highlights business reviews)
  unfolding highlights
  highlights-Listed = take-All Listed 5 (sort_by later kept) (
      sort_by-All later Listed kept (
        All-of_each Listed kept (λ r m.
          let (listed, e) = (keep-In_iff (is_highlight business) r reviews).0 m in
          (listed, is_highlight-Highlight business r e))))

  highlights-Shown : (r : Review) → In r reviews → Shown business (highlights business reviews) r
  unfolding highlights
  highlights-Shown r m = elim (Bool-cases (is_highlight business r)) [
    | inr miss ↦ inl (λ h. let e = Highlight-is_highlight business r h in absurd (ground arith))
    | inl hit ↦
        let own = is_highlight-Highlight business r hit in
        let kept_r = (keep-In_iff (is_highlight business) r reviews).1 (m, hit) in
        elim (take-cases By 5 r (sort_by later kept) highlights-Ordered
          (sort_by-In later r kept kept_r)) [
            | inl shown ↦ inr (inl shown)
            | inr (full, above) ↦ inr (
                inr (
                  full,
                  All-both Listed (λ l. By l r) (λ l. NoLater r l) (highlights business reviews)
                      highlights-Listed above
                      (λ l g le. submission_time-NoLater business l r g.1 own le),
                ))
          ]
  ]

  -- The public highlights of a business are at most five of its submitted reviews with a comment
  -- and a rating of 4 or more, the latest first. Such a review is left out only if five others
  -- are shown that were submitted no earlier.
  pub highlights-latest :
      (length (highlights business reviews) ≤ 5)
      × All (λ r. In r reviews × Highlight business r) (highlights business reviews)
      × Ordered (λ l r. NoLater r l) (highlights business reviews)
      × All (λ r. Shown business (highlights business reviews) r) reviews
  unfolding highlights
  highlights-latest = (
    length-take 5 (sort_by later kept),
    highlights-Listed,
    Ordered-within Listed By (λ l r. NoLater r l) (highlights business reviews) highlights-Listed
        (take-Ordered By 5 (sort_by later kept) highlights-Ordered)
        (λ l r g h le. submission_time-NoLater business l r g.1 h.1 le),
    All-of_each _ reviews (λ r m. highlights-Shown r m),
  )
