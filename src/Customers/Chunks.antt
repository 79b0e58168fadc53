-- ===== src/Customers/Chunks.antt =====
-- customers.service.ts: the loop over the chunks of an import.
use turno_flow.Prelude.{
  ℕ, zero, suc, ◌+◌, ◌≤◌, ◌≡◌, refl, sym, ap, ◌∙◌, arith, List, [], ◌∷◌, ◌++◌, Bool-cases, inl, inr,
  ltb, length, take,
}
use turno_flow.Schema.{Db}
use turno_flow.Customers.{ImportRow, import_rows, import_chunks, import_chunk_size, drop}

take-drop : {A : Type 0} (n : ℕ) (xs : List A) → take n xs ++ drop n xs ≡ xs
take-drop zero xs = refl
take-drop (suc n) [] = refl
take-drop (suc n) (x ∷ xs) = ap (λ r. x ∷ r) (take-drop n xs)

drop_all : {A : Type 0} (n : ℕ) (xs : List A) → length xs ≤ n → drop n xs ≡ []
drop_all zero [] h = refl
drop_all zero (x ∷ xs) h = absurd (omega arith)
drop_all (suc n) [] h = refl
drop_all (suc n) (x ∷ xs) h = drop_all n xs (omega arith)

drop-drop : {A : Type 0} (m n k : ℕ) (xs : List A) → m + n ≡ k → drop n (drop m xs) ≡ drop k xs
drop-drop zero n k xs h = let same : n ≡ k = omega arith in rw same refl
drop-drop (suc m) zero zero [] h = refl
drop-drop (suc m) (suc n) zero [] h = refl
drop-drop (suc m) zero (suc k) [] h = refl
drop-drop (suc m) (suc n) (suc k) [] h = refl
drop-drop (suc m) n zero (x ∷ xs) h = absurd (omega arith)
drop-drop (suc m) n (suc k) (x ∷ xs) h = drop-drop m n k xs (omega arith)

import_rows-append :
    (business : ℕ) (xs ys : List ImportRow) (db : Db)
    → import_rows business ys (import_rows business xs db) ≡ import_rows business (xs ++ ys) db
unfolding import_rows
import_rows-append business [] ys db = refl
import_rows-append business (r ∷ xs) ys db = import_rows-append business xs ys _

import_chunks_from :
    (business fuel index : ℕ) (rows : List ImportRow) (db : Db)
    → length rows ≤ index + fuel
    → import_chunks business fuel index rows db ≡ import_rows business (drop index rows) db
unfolding import_chunks import_rows
import_chunks_from business zero index rows db h = rw (drop_all index rows (omega arith)) refl
import_chunks_from business (suc n) index rows db h = elim (Bool-cases (ltb index (length rows))) [
  | inl more ↦
      rw (import_chunks, more)
        (import_chunks_from business n (index + import_chunk_size) rows _ (omega arith)
          ∙ ap
              (λ xs.
                import_rows business xs
                  (import_rows business (take import_chunk_size (drop index rows)) db))
              (sym (drop-drop index import_chunk_size (index + import_chunk_size) rows refl))
          ∙ import_rows-append business (take import_chunk_size (drop index rows))
              (drop import_chunk_size (drop index rows)) db
          ∙ ap (λ xs. import_rows business xs db) (take-drop import_chunk_size (drop index rows)))
  | inr none_left ↦
      let gone : drop index rows ≡ [] = drop_all index rows (ground arith) in
      rw (import_chunks, none_left, gone) refl
]

-- The loop ends, and its chunks are the rows, each of them once and in their order.
pub import_chunks-import_rows :
    (business : ℕ) (rows : List ImportRow) (db : Db)
    → import_chunks business (length rows) 0 rows db ≡ import_rows business rows db
import_chunks-import_rows business rows db =
    import_chunks_from business (length rows) 0 rows db (omega arith)
