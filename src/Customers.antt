-- ===== src/Customers.antt =====
-- apps/api/src/customers/customers.service.ts: adding customers by hand and from a CSV file, whose
-- parser is a library's: an import begins with the records that it returns.
pub mod Imports
pub mod Chunks
pub mod Writes
use turno_flow.Prelude.{
  ℕ, zero, suc, ◌+◌, ◌-◌, List, [], ◌∷◌, ◌++◌, String, Bool, true, false, not, ◌&&◌, ◌||◌, Option,
  none, some, Result, ok, err, bad_request, or_throw, require, ◌>>=◌, ◌>>◌, ltb, leb, ◌==◌,
  if◌then◌else◌, any, keep, find_first, update_where, length, take,
}
use turno_flow.Text.{Text, text_eq}
use turno_flow.Time.{Runtime}
use turno_flow.Schema.{Db, Customer}
use turno_flow.Booking.{is_customer}
use turno_flow.Businesses.{AuthenticatedUser, require_current_business}

-- `value || null`
abbrev pub filled : Text → Option Text
filled [] = none
filled (c ∷ cs) = some (c ∷ cs)

abbrev new_customer : ℕ → Text → Text → Option Text → ℕ → Customer
new_customer business email name phone id = record {
  id = id;
  business_id = business;
  email = email;
  name = name;
  phone = phone;
  total_appointments = 0;
  completed_appointments = 0;
  no_show_count = 0;
}

-- `customer.upsert` by business and email: the phone of a new row, and what an update does to the
-- phone of an old one.
unfoldable pub upsert :
    ℕ → Text → Text → Option Text → (Option Text → Option Text) → Db → Db × Customer
upsert business email name phone change db =
    elim (find_first (is_customer business email) db.customers) [
      | some c ↦
          let updated = record c { name = name; phone = change c.phone } in
          (
            record db { customers = update_where (λ x. x.id == c.id) (λ _. updated) db.customers },
            updated,
          )
      | none ↦
          let c = new_customer business email name phone db.next_id in
          (record db { next_id = suc db.next_id; customers = db.customers ++ c ∷ [] }, c)
    ]

pub record CreateInput : Type 0 where
  pub email : Text
  pub name : Text
  pub phone : Option Text

-- `dto.phone?.trim() ?? null`
abbrev pub created_phone : Runtime → Option Text → Option Text
created_phone rt none = none
created_phone rt (some p) = some (rt.trim p)

-- `...(dto.phone !== undefined ? { phone: dto.phone.trim() || null } : {})`
abbrev pub changed_phone : Runtime → Option Text → Option Text → Option Text
changed_phone rt none old = old
changed_phone rt (some p) old = filled (rt.trim p)

-- `create`
unfoldable pub create : Runtime → AuthenticatedUser → CreateInput → Db → Result (Db × Customer)
unfolding upsert
create rt user input db = do
  b ← require_current_business db user
  ok (
      upsert b.id (rt.trim (rt.to_lower_case input.email)) (rt.trim input.name)
        (created_phone rt input.phone) (changed_phone rt input.phone) db)

-- A record of the file: a column that is missing reads as an empty text.
pub record CsvRecord : Type 0 where
  pub name : Text
  pub email : Text
  pub phone : Text

pub record ImportRow : Type 0 where
  pub email : Text
  pub name : Text
  pub phone : Option Text

pub record ImportError : Type 0 where
  pub email : Text
  pub message : String
  pub row : ℕ

pub data Validated : Type 0 where
  valid : ImportRow → Validated
  invalid : ImportError → Validated

-- `\s`
abbrev pub is_space : ℕ → Bool
is_space c =
    (leb 9 c && leb c 13)
    || c == 32
    || c == 160
    || c == 5760
    || (leb 8192 c && leb c 8202)
    || c == 8232
    || c == 8233
    || c == 8239
    || c == 8287
    || c == 12288
    || c == 65279

-- `[^\s@]`
abbrev is_part : ℕ → Bool
is_part c = not (is_space c) && not (c == b'@')

-- `\.[^\s@]+$`, somewhere after the first character of the domain.
abbrev has_suffix : Text → Bool
has_suffix [] = false
has_suffix (c ∷ []) = false
has_suffix (c ∷ d ∷ cs) =
    (c == b'.' && is_part d && all_parts cs) || (is_part c && has_suffix (d ∷ cs))
  where
    all_parts : Text → Bool
    all_parts [] = true
    all_parts (c ∷ cs) = is_part c && all_parts cs

abbrev is_domain : Text → Bool
is_domain [] = false
is_domain (c ∷ cs) = is_part c && has_suffix cs

abbrev after_local : Text → Bool
after_local [] = false
after_local (c ∷ cs) = if c == b'@' then is_domain cs else is_part c && after_local cs

-- `EMAIL_PATTERN.test(text)`
abbrev pub is_email : Text → Bool
is_email [] = false
is_email (c ∷ cs) = is_part c && after_local cs

-- `validateImportRow`
unfoldable pub validate_import_row : Runtime → CsvRecord → ℕ → Validated
validate_import_row rt r row =
    let name = rt.trim r.name in
    let email = rt.to_lower_case (rt.trim r.email) in
    let phone = rt.trim r.phone in
    let failed =
      λ (message : String). invalid (record { email = email; message = message; row = row }) in
    if length name == 0 || ltb 120 (length name)
    then failed "Invalid name"
    else if length email == 0 || ltb 254 (length email) || not (is_email email)
    then failed "Invalid email"
    else if ltb 40 (length phone)
    then failed "Invalid phone"
    else valid (record { email = email; name = name; phone = filled phone })

-- `rowsByEmail.set(row.email, row)`
abbrev pub put_row : ImportRow → List ImportRow → List ImportRow
put_row r [] = r ∷ []
put_row r (s ∷ rows) = if text_eq s.email r.email then r ∷ rows else s ∷ put_row r rows

pub record Collected : Type 0 where
  pub errors : List ImportError
  pub rows : List ImportRow

abbrev pub collect_one : Collected → Validated → Collected
collect_one c (valid r) = record c { rows = put_row r c.rows }
collect_one c (invalid e) = record c { errors = c.errors ++ e ∷ [] }

-- `records.forEach(…)`, from a row number on.
unfoldable pub collect : Runtime → ℕ → List CsvRecord → Collected → Collected
unfolding validate_import_row
collect rt row [] c = c
collect rt row (r ∷ records) c =
    collect rt (row + 1) records (collect_one c (validate_import_row rt r row))

-- The upsert of a row: a phone that is given replaces the old one.
abbrev pub given_or : Option Text → Option Text → Option Text
given_or none old = old
given_or (some p) old = some p

-- A chunk's transaction.
unfoldable pub import_rows : ℕ → List ImportRow → Db → Db
unfolding upsert
import_rows business [] db = db
import_rows business (r ∷ rows) db =
    import_rows business rows (upsert business r.email r.name r.phone (given_or r.phone) db).0

abbrev pub drop {ℓ} : {A : Type ℓ} → ℕ → List A → List A
drop zero xs = xs
drop (suc n) [] = []
drop (suc n) (x ∷ xs) = drop n xs

-- `IMPORT_CHUNK_SIZE`
abbrev pub import_chunk_size : ℕ
import_chunk_size = 100

-- `for (let index = 0; index < uniqueRows.length; index += IMPORT_CHUNK_SIZE)`, on fuel.
unfoldable pub import_chunks : ℕ → (fuel index : ℕ) → List ImportRow → Db → Db
unfolding import_rows
import_chunks business zero index rows db = db
import_chunks business (suc n) index rows db = elim (ltb index (length rows)) [
  | true ↦
      import_chunks business n (index + import_chunk_size) rows
        (import_rows business (take import_chunk_size (drop index rows)) db)
  | false ↦ db
]

pub record ImportResult : Type 0 where
  pub errors : List ImportError
  pub imported : ℕ
  pub updated : ℕ

abbrev pub is_existing : ℕ → Db → ImportRow → Bool
is_existing business db r = any (is_customer business r.email) db.customers

-- `importCsv`, for the records of a file that has bytes.
unfoldable pub import_csv :
    Runtime → AuthenticatedUser → List CsvRecord → Db → Result (Db × ImportResult)
unfolding collect import_chunks
import_csv rt user records db = do
  b ← require_current_business db user
  let found = collect rt 2 records (record { errors = []; rows = [] })
  let updated = length (keep (is_existing b.id db) found.rows)
  ok (
    import_chunks b.id (length found.rows) 0 found.rows db,
    record { errors = found.errors; imported = length found.rows - updated; updated = updated },
  )
