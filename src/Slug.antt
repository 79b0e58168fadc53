-- ===== src/Slug.antt =====
-- apps/api/src/common/slug.ts and the choice of a free slug in
-- apps/api/src/businesses/businesses.service.ts. Unicode normalisation is the runtime's: it is the
-- argument `normalize`.
pub mod Shape
pub mod Available
use turno_flow.Prelude.{
  ℕ, zero, suc, ◌+◌, ◌/◌, ◌%◌, List, [], ◌∷◌, ◌++◌, Bool, true, false, not, ◌&&◌, ◌||◌, Result, ok,
  err, conflict, require, ◌>>=◌, ◌>>◌, ltb, leb, ◌==◌, if◌then◌else◌, any, keep,
}
use turno_flow.Text.{Text, text_eq}
use turno_flow.Time.{Runtime}
use turno_flow.Schema.{Db}

-- `[a-z0-9]`
abbrev pub is_slug_char : ℕ → Bool
is_slug_char c = (leb b'a' c && leb c b'z') || (leb b'0' c && leb c b'9')

-- `[\u0300-\u036f]`
abbrev pub is_combining_mark : ℕ → Bool
is_combining_mark c = leb 768 c && leb c 879

-- `.replace(/[^a-z0-9]+/g, "-")`; the flag is whether a run that is replaced goes on.
abbrev pub hyphenate : Bool → Text → Text
hyphenate in_run [] = []
hyphenate in_run (c ∷ cs) = elim (is_slug_char c) [
  | true ↦ c ∷ hyphenate false cs
  | false ↦ elim in_run [ true ↦ hyphenate true cs | false ↦ b'-' ∷ hyphenate true cs ]
]

-- `.replace(/^-+|-+$/g, "")`: the dashes at the start and at the end.
abbrev pub drop_dashes : Text → Text
drop_dashes [] = []
drop_dashes (c ∷ cs) = elim (c == b'-') [ true ↦ drop_dashes cs | false ↦ c ∷ cs ]

abbrev pub append_stripped : ℕ → Text → Text
append_stripped c [] = if c == b'-' then [] else c ∷ []
append_stripped c (d ∷ ds) = c ∷ d ∷ ds

abbrev pub strip_end : Text → Text
strip_end [] = []
strip_end (c ∷ cs) = append_stripped c (strip_end cs)

-- `toSlug`
unfoldable pub to_slug : Runtime → (Text → Text) → Text → Text
to_slug rt normalize value = strip_end (
    drop_dashes (
      hyphenate false
        (rt.trim (rt.to_lower_case (keep (λ c. not (is_combining_mark c)) (normalize value))))))

-- `${n}` for a number below 1000.
abbrev pub decimal : ℕ → Text
decimal n =
    if ltb n 10
    then (b'0' + n) ∷ []
    else if ltb n 100
    then (b'0' + n / 10) ∷ (b'0' + n % 10) ∷ []
    else (b'0' + n / 100) ∷ (b'0' + n / 10 % 10) ∷ (b'0' + n % 10) ∷ []

-- `suffix === 0 ? baseSlug : `${baseSlug}-${suffix + 1}``
abbrev pub slug_candidate : Text → ℕ → Text
slug_candidate base zero = base
slug_candidate base (suc n) = base ++ b'-' ∷ decimal (n + 2)

abbrev pub is_taken : Db → Text → Bool
is_taken db slug = any (λ b. text_eq b.slug slug) db.businesses

-- The loop, with the rounds that are left.
unfoldable pub try_slugs : Db → Text → (rounds suffix : ℕ) → Result Text
try_slugs db base zero suffix = err (conflict "Could not generate an available business slug")
try_slugs db base (suc n) suffix = elim (is_taken db (slug_candidate base suffix)) [
  | true ↦ try_slugs db base n (suc suffix)
  | false ↦ ok (slug_candidate base suffix)
]

-- `createAvailableSlug`
unfoldable pub create_available_slug : Runtime → (Text → Text) → Db → Text → Result Text
unfolding to_slug try_slugs
create_available_slug rt normalize db value = do
  let base = to_slug rt normalize value
  require (elim base [ [] ↦ false | c ∷ cs ↦ true ]) (conflict "Business slug cannot be empty")
  try_slugs db base 100 0
