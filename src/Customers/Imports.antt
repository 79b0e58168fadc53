-- ===== src/Customers/Imports.antt =====
-- customers.service.ts: what becomes of the records of a file.
use turno_flow.Prelude.{ℕ, ◌+◌, ◌≡◌, List, [], ◌∷◌, false, find_first, length, In, All, Ordered}
use turno_flow.Text.{Text, text_eq}
use turno_flow.Time.{Runtime}
use turno_flow.Schema.{Db}
use turno_flow.Booking.{is_customer}
use turno_flow.Customers.{
  CsvRecord, ImportRow, Validated, valid, invalid, validate_import_row, Collected, collect,
  ImportResult,
}
use turno_flow.Customers.Writes.{Written}

abbrev pub Distinct : List ImportRow → Type 0
Distinct rows = Ordered (λ a b. text_eq a.email b.email ≡ false) rows

-- Whether some row has the address.
abbrev pub Has : Text → List ImportRow → Type 0
Has email rows = (r : ImportRow) × In r rows × (r.email ≡ email)

-- What a validated record leaves in what is collected.
abbrev pub Kept : Validated → Collected → Type 0
Kept (valid r) c = Has r.email c.rows
Kept (invalid e) c = In e c.errors

module _ (rt : Runtime) where
  -- Every record, numbered from `row` on, is kept as a row or as an error.
  abbrev pub Accounted : ℕ → List CsvRecord → Collected → Type 0
  Accounted row [] c = Unit
  Accounted row (r ∷ records) c =
      Kept (validate_import_row rt r row) c × Accounted (row + 1) records c

abbrev pub collected : Runtime → List CsvRecord → Collected
collected rt records = collect rt 2 records (record { errors = []; rows = [] })

-- What an import leads to, for the business of the request.
pub record Import (rt : Runtime) (records : List CsvRecord) (business : ℕ) (db db' : Db)
    (result : ImportResult) : Type 0 where
  pub accounted : Accounted rt 2 records (collected rt records)
  pub distinct : Distinct (collected rt records).rows
  pub errors : result.errors ≡ (collected rt records).errors
  pub written : All (Written business db') (collected rt records).rows
  pub others :
      (q : ImportRow)
      → All (λ r. text_eq r.email q.email ≡ false) (collected rt records).rows
      → find_first (λ c. is_customer business q.email c) db'.customers
        ≡ find_first (λ c. is_customer business q.email c) db.customers
  pub added : length db'.customers ≡ length db.customers + result.imported
  pub total : result.imported + result.updated ≡ length (collected rt records).rows
