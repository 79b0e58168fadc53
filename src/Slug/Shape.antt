-- ===== src/Slug/Shape.antt =====
-- slug.ts: the texts that are slugs.
use turno_flow.Prelude.{
  ℕ, [], ◌∷◌, ◌≡◌, ◌⊎◌, inl, inr, refl, arith, Bool, true, false, not, ◌&&◌, keep, ◌==◌, Bool-cases,
}
use turno_flow.Text.{Text}
use turno_flow.Time.{Runtime}
use turno_flow.Slug.{
  is_slug_char, is_combining_mark, hyphenate, drop_dashes, append_stripped, strip_end, to_slug,
}

-- Words of slug characters that single dashes join; the flag is whether a character is due.
abbrev pub slug_from : Bool → Text → Bool
slug_from due [] = not due
slug_from due (c ∷ cs) = elim (is_slug_char c) [
  | true ↦ slug_from false cs
  | false ↦ c == b'-' && not due && slug_from true cs
]

abbrev pub is_slug : Text → Bool
is_slug text = slug_from true text

-- The same, but for what stands at the end.
abbrev loose_from : Bool → Text → Bool
loose_from due [] = true
loose_from due (c ∷ cs) = elim (is_slug_char c) [
  | true ↦ loose_from false cs
  | false ↦ c == b'-' && not due && loose_from true cs
]

hyphenate_loose : (in_run : Bool) (t : Text) → loose_from in_run (hyphenate in_run t) ≡ true
hyphenate_loose in_run [] = refl
hyphenate_loose in_run (c ∷ cs) = ground (arith, hyphenate_loose false cs, hyphenate_loose true cs)

loose_weaken : (t : Text) → loose_from true t ≡ true → loose_from false t ≡ true
loose_weaken [] h = refl
loose_weaken (c ∷ cs) h = ground arith

drop_dashes_loose : (t : Text) → loose_from false t ≡ true → loose_from true (drop_dashes t) ≡ true
drop_dashes_loose [] h = refl
drop_dashes_loose (c ∷ cs) h = ground (arith, drop_dashes_loose cs, loose_weaken cs)

append_slug :
    (due : Bool) (c : ℕ) (rest : Text)
    → (is_slug_char c ≡ true) × ((rest ≡ []) ⊎ (slug_from false rest ≡ true))
      ⊎ ((is_slug_char c ≡ false)
          × ((c == b'-') ≡ true)
          × (due ≡ false)
          × ((rest ≡ []) ⊎ (slug_from true rest ≡ true)))
    → (append_stripped c rest ≡ []) ⊎ (slug_from due (append_stripped c rest) ≡ true)
append_slug due c [] (inl (e, d)) = inr (ground arith)
append_slug due c [] (inr (e, dash, d, k)) = inl (rw dash refl)
append_slug due c (d ∷ ds) (inl (e, inl k)) = absurd (cc k)
append_slug due c (d ∷ ds) (inl (e, inr k)) = inr (ground arith)
append_slug due c (d ∷ ds) (inr (e, dash, due_none, inl k)) = absurd (cc k)
append_slug due c (d ∷ ds) (inr (e, dash, due_none, inr k)) = inr (ground arith)

strip_end_slug :
    (due : Bool) (t : Text)
    → loose_from due t ≡ true
    → (strip_end t ≡ []) ⊎ (slug_from due (strip_end t) ≡ true)
strip_end_slug due [] h = inl refl
strip_end_slug due (c ∷ cs) h = elim (Bool-cases (is_slug_char c)) [
  | inl e ↦ append_slug due c (strip_end cs) (inl (e, strip_end_slug false cs (ground arith)))
  | inr e ↦
      append_slug due c (strip_end cs)
        (inr (e, ground arith, ground arith, strip_end_slug true cs (ground arith)))
]

-- What `toSlug` makes of a text is empty, or words of lower case letters and digits that single
-- dashes join, with none at either end.
pub to_slug-is_slug :
    (rt : Runtime) (normalize : Text → Text) (value : Text)
    → (to_slug rt normalize value ≡ []) ⊎ (is_slug (to_slug rt normalize value) ≡ true)
unfolding to_slug
to_slug-is_slug rt normalize value =
    let cleaned =
      rt.trim (rt.to_lower_case (keep (λ c. not (is_combining_mark c)) (normalize value))) in
    let dashed = hyphenate false cleaned in
    strip_end_slug true (drop_dashes dashed)
      (drop_dashes_loose dashed (hyphenate_loose false cleaned))
