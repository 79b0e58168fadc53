-- ===== src/Reviews.antt =====
-- apps/api/src/reviews/reviews.service.ts: the reviews of appointments. The average that the
-- database computes is left out.
pub mod Submission
use turno_flow.Prelude.{
  ℕ, List, [], ◌∷◌, Bool, true, false, not, ◌&&◌, Option, none, some, Result, ok, not_found,
  conflict, or_throw, require, ◌>>=◌, ◌>>◌, leb, ◌==◌, count, keep, find_first, update_where, take,
  sort_by,
}
use turno_flow.Text.{Text}

pub record Review : Type 0 where
  pub id : ℕ
  pub business_id : ℕ
  pub token : ℕ
  pub rating : Option ℕ
  pub comment : Option Text
  pub submitted_at : Option ℕ

pub record SubmitReview : Type 0 where
  pub rating : ℕ
  pub comment : Option Text

abbrev pub is_open : Option ℕ → Bool
is_open none = true
is_open (some t) = false

abbrev pub submitted : ℕ → SubmitReview → Review → Review
submitted now input r = record r {
  comment = input.comment;
  rating = some input.rating;
  submitted_at = some now;
}

-- `submit`
unfoldable pub submit : ℕ → ℕ → SubmitReview → List Review → Result (List Review)
submit now token input reviews = do
  r ← or_throw (find_first (λ r. r.token == token) reviews) (not_found "Review not found")
  require (is_open r.submitted_at) (conflict "Review already submitted")
  ok (update_where (λ x. x.id == r.id) (submitted now input) reviews)

-- The submitted reviews of a business, which `totalCount` counts by their ratings.
abbrev pub is_submitted_for : ℕ → Review → Bool
is_submitted_for business r = r.business_id == business && not (is_open r.submitted_at)

abbrev has_rating : Review → Bool
has_rating r = elim (r.rating) [ none ↦ false | some n ↦ true ]

unfoldable pub total_count : ℕ → List Review → ℕ
total_count business reviews = count (λ r. is_submitted_for business r && has_rating r) reviews

abbrev pub is_highlight : ℕ → Review → Bool
is_highlight business r =
    is_submitted_for business r
    && elim (r.comment) [ none ↦ false | some c ↦ true ]
    && elim (r.rating) [ none ↦ false | some n ↦ leb 4 n ]

-- `orderBy: { submittedAt: "desc" }`
abbrev pub submission_time : Review → ℕ
submission_time r = elim (r.submitted_at) [ none ↦ 0 | some t ↦ t ]

-- The `highlights` of `listPublicReviewsByBusiness`.
unfoldable pub highlights : ℕ → List Review → List Review
highlights business reviews = take 5 (
    sort_by (λ l r. leb (submission_time r) (submission_time l))
      (keep (is_highlight business) reviews))
