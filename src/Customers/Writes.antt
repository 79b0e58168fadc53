-- ===== src/Customers/Writes.antt =====
-- customers.service.ts: what the upserts of an import do to the table of customers.
use turno_flow.Prelude.{
  ℕ, suc, ◌+◌, ◌<◌, ◌≡◌, ◌≢◌, ◌⊎◌, inl, inr, refl, sym, ap, ◌∙◌, subst⁻¹, arith, List, [], ◌∷◌,
  ◌++◌, Bool, true, false, Option, none, some, Bool-cases, Option-cases, length, any, keep, ◌==◌,
  find_first, find_first_sound, update_where, update_where-Ordered, All, All-append,
  All-update_where, In, Ordered, Ordered-append, same_row,
}
use turno_flow.Text.{Text, text_eq}
use turno_flow.Text.Laws.{text_eq_sound, text_eq_self}
use turno_flow.Schema.{Db, Customer}
use turno_flow.Store.Sound.{All-map}
use turno_flow.Booking.{is_customer}
use turno_flow.Customers.{ImportRow, new_customer, upsert, given_or, import_rows, is_existing}

-- Tables of any rows.
module _ {A : Type 0} (q : A → Bool) where
  found_last :
      (xs : List A) (a : A)
      → find_first (λ x. q x) xs ≡ none
      → q a ≡ true
      → find_first (λ x. q x) (xs ++ a ∷ []) ≡ some a
  found_last [] a h e = rw e refl
  found_last (x ∷ xs) a h e = elim (Bool-cases (q x)) [
    | inl d ↦ absurd (ground arith)
    | inr d ↦ rw d (found_last xs a (rw d at h) e)
  ]

  missed_last :
      (xs : List A) (a : A)
      → q a ≡ false
      → find_first (λ x. q x) (xs ++ a ∷ []) ≡ find_first (λ x. q x) xs
  missed_last [] a e = rw e refl
  missed_last (x ∷ xs) a e = elim (Bool-cases (q x)) [
    | inl d ↦ rw d refl
    | inr d ↦ rw d (missed_last xs a e)
  ]

  any_found :
      (xs : List A) → any q xs ≡ elim (find_first (λ x. q x) xs) [ none ↦ false | some a ↦ true ]
  any_found [] = refl
  any_found (x ∷ xs) = elim (Bool-cases (q x)) [ inl d ↦ rw d refl | inr d ↦ rw d (any_found xs) ]

  module _ (p : A → Bool) (u : A) where
    found_written :
        (xs : List A) {a : A}
        → find_first (λ x. q x) xs ≡ some a
        → p a ≡ true
        → q u ≡ true
        → find_first (λ x. q x) (update_where p (λ _. u) xs) ≡ some u
    found_written [] h hit e = absurd (cc h)
    found_written (x ∷ xs) h hit e = elim (Bool-cases (p x)) [
      | inl c ↦ rw (c, e) refl
      | inr c ↦ elim (Bool-cases (q x)) [
        | inl d ↦ absurd (ground arith)
        | inr d ↦ rw (c, d) (found_written xs (rw d at h) hit e)
      ]
    ]

    missed_written :
        (xs : List A)
        → ((x : A) → In x xs → p x ≡ true → q x ≡ false)
        → q u ≡ false
        → find_first (λ x. q x) (update_where p (λ _. u) xs) ≡ find_first (λ x. q x) xs
    missed_written [] h e = refl
    missed_written (x ∷ xs) h e =
        let rest = missed_written xs (λ y m. h y (inr m)) e in
        elim (Bool-cases (p x)) [
          | inl c ↦ rw (c, e, h x (inl refl) c) rest
          | inr c ↦ elim (Bool-cases (q x)) [ inl d ↦ rw (c, d) refl | inr d ↦ rw (c, d) rest ]
        ]

length-update_where :
    {A : Type 0} (p : A → Bool) (f : A → A) (xs : List A) → length (update_where p f xs) ≡ length xs
length-update_where p f [] = refl
length-update_where p f (x ∷ xs) = ap suc (length-update_where p f xs)

length-append : {A : Type 0} (xs ys : List A) → length (xs ++ ys) ≡ length xs + length ys
length-append [] ys = omega arith
length-append (x ∷ xs) ys = omega (arith, length-append xs ys)

apart_comm : (s t : Text) → text_eq s t ≡ false → text_eq t s ≡ false
apart_comm s t h = elim (Bool-cases (text_eq t s)) [
  | inl e ↦
      let same = text_eq_sound t s e in
      let self : text_eq s t ≡ true = rw same (text_eq_self s) in absurd (ground arith)
  | inr e ↦ e
]

-- The identifiers of the customers are distinct and below the next one.
abbrev pub Keyed : Db → Type 0
Keyed db = Ordered (λ c d. c.id ≢ d.id) db.customers × All (λ c. c.id < db.next_id) db.customers

module _ (business : ℕ) where
  -- The customer with the row's address has its name, and its phone if it has one.
  pub record Written (db : Db) (r : ImportRow) : Type 0 where
    pub customer : Customer
    pub found : find_first (λ c. is_customer business r.email c) db.customers ≡ some customer
    pub name : customer.name ≡ r.name
    pub phone : (r.phone ≡ none) ⊎ (customer.phone ≡ r.phone)

  abbrev put : ImportRow → Db → Db
  put r db = (upsert business r.email r.name r.phone (given_or r.phone) db).0

  -- What one row does: it is written, its customer is new or not, and other addresses are as before.
  record Put (r : ImportRow) (db db1 : Db) : Type 0 where
    keyed : Keyed db1
    written : Written db1 r
    others :
        (q : ImportRow)
        → text_eq r.email q.email ≡ false
        → find_first (λ c. is_customer business q.email c) db1.customers
          ≡ find_first (λ c. is_customer business q.email c) db.customers
    grown :
        length db1.customers
        ≡ length db.customers + elim (is_existing business db r) [ true ↦ 0 | false ↦ 1 ]

  new-Keyed :
      (r : ImportRow) (db : Db) (c : Customer)
      → Keyed db
      → c.id ≡ db.next_id
      → (put r db).customers ≡ db.customers ++ c ∷ []
      → (put r db).next_id ≡ suc db.next_id
      → Keyed (put r db)
  new-Keyed r db c k own added next =
      rw (added, next)
        (
          Ordered-append (λ a b. a.id ≢ b.id) db.customers c k.0
              (All-map (λ d. d.id < db.next_id) (λ d. d.id ≢ c.id) db.customers k.1
                (λ d h. omega arith)),
          All-append (λ d. d.id < suc db.next_id) db.customers (c ∷ [])
              (All-map (λ d. d.id < db.next_id) (λ d. d.id < suc db.next_id) db.customers k.1
                (λ d h. omega arith))
              (omega arith, tt),
        )

  old-Keyed :
      (r : ImportRow) (db : Db) (c u : Customer)
      → Keyed db
      → u.id ≡ c.id
      → (put r db).customers ≡ update_where (λ x. x.id == c.id) (λ _. u) db.customers
      → (put r db).next_id ≡ db.next_id
      → Keyed (put r db)
  old-Keyed r db c u k own changed next =
      rw (changed, next)
        (
          update_where-Ordered (λ x. x.id == c.id) (λ _. u) (λ x. x.id) db.customers
              (λ x e. ground arith) k.0,
          All-update_where (λ x. x.id == c.id) (λ _. u) (λ d. d.id < db.next_id)
              (λ d. d.id < db.next_id) db.customers k.1 (λ x h e. ground arith) (λ x h e. h),
        )

  phone_given : (p old : Option Text) → (p ≡ none) ⊎ (given_or p old ≡ p)
  phone_given none old = inl refl
  phone_given (some t) old = inr refl

  put-new :
      (r : ImportRow) (db : Db)
      → Keyed db
      → find_first (λ c. is_customer business r.email c) db.customers ≡ none
      → Put r db (put r db)
  unfolding upsert
  put-new r db k e =
      let c = new_customer business r.email r.name r.phone db.next_id in
      let own : is_customer business r.email c ≡ true = ground (arith, text_eq_self r.email) in
      let fresh : is_existing business db r ≡ false =
        rw (any_found (is_customer business r.email) db.customers, e) refl in
      let added : (put r db).customers ≡ db.customers ++ c ∷ [] = rw (put, upsert, e) refl in
      let next : (put r db).next_id ≡ suc db.next_id = rw (put, upsert, e) refl in
      record {
        keyed = new-Keyed r db c k refl added next;
        written = record {
          customer = c;
          found = rw added (found_last (is_customer business r.email) db.customers c e own);
          name = refl;
          phone = inr refl;
        };
        others = λ q apart.
            rw added
              (missed_last (is_customer business q.email) db.customers c (rw apart (ground arith)));
        grown = rw (added, fresh) (length-append db.customers (c ∷ []));
      }

  put-old :
      (r : ImportRow) (db : Db) (c : Customer)
      → Keyed db
      → find_first (λ c. is_customer business r.email c) db.customers ≡ some c
      → Put r db (put r db)
  unfolding upsert
  put-old r db c k e =
      let u : Customer = record c { name = r.name; phone = given_or r.phone c.phone } in
      let (m, is_c) = find_first_sound (is_customer business r.email) db.customers e in
      let own : is_customer business r.email u ≡ true = is_c in
      let has_id = λ (x : Customer). x.id == c.id in
      let same_email : c.email ≡ r.email = text_eq_sound c.email r.email (ground arith) in
      let old : is_existing business db r ≡ true =
        rw (any_found (is_customer business r.email) db.customers, e) refl in
      let changed : (put r db).customers ≡ update_where has_id (λ _. u) db.customers =
        rw (put, upsert, e) refl in
      let next : (put r db).next_id ≡ db.next_id = rw (put, upsert, e) refl in
      record {
        keyed = old-Keyed r db c u k refl changed next;
        written = record {
          customer = u;
          found = rw changed (
              found_written (is_customer business r.email) has_id u db.customers e (ground arith)
                own);
          name = refl;
          phone = phone_given r.phone c.phone;
        };
        others = λ q apart. rw changed (
            missed_written (is_customer business q.email) has_id u db.customers
              (λ x n hit.
                subst⁻¹ (λ y. is_customer business q.email y ≡ false)
                  (same_row (λ y. y.id) db.customers k.0 n m (ground arith))
                  (rw (same_email, apart) (ground arith)))
              (rw (same_email, apart) (ground arith)));
        grown = rw (changed, old) (length-update_where has_id (λ _. u) db.customers ∙ omega arith);
      }

  put-Put : (r : ImportRow) (db : Db) → Keyed db → Put r db (put r db)
  put-Put r db k = elim (Option-cases (find_first (is_customer business r.email) db.customers)) [
    | inl e ↦ put-new r db k e
    | inr (c, e) ↦ put-old r db c k e
  ]

  existing_later :
      (r : ImportRow) (db : Db) (rows : List ImportRow)
      → Put r db (put r db)
      → All (λ q. text_eq r.email q.email ≡ false) rows
      → keep (is_existing business (put r db)) rows ≡ keep (is_existing business db) rows
  existing_later r db [] p h = refl
  existing_later r db (q ∷ rows) p h =
      let same : is_existing business (put r db) q ≡ is_existing business db q =
        any_found (is_customer business q.email) (put r db).customers
        ∙ ap (λ o. elim o as (λ _. Bool) [ none ↦ false | some c ↦ true ]) (p.others q h.0)
        ∙ sym (any_found (is_customer business q.email) db.customers) in
      rw (same, existing_later r db rows p h.1) refl

  -- What the rows of an import do: each is written, those whose address no customer had are new
  -- customers, and other addresses are as before.
  pub record Imported (rows : List ImportRow) (db db1 : Db) : Type 0 where
    pub written : All (Written db1) rows
    pub others :
        (q : ImportRow)
        → All (λ r. text_eq r.email q.email ≡ false) rows
        → find_first (λ c. is_customer business q.email c) db1.customers
          ≡ find_first (λ c. is_customer business q.email c) db.customers
    pub grown :
        length db1.customers + length (keep (is_existing business db) rows)
        ≡ length db.customers + length rows

  pub import_rows-Imported :
      (rows : List ImportRow) (db : Db)
      → Keyed db
      → Ordered (λ a b. text_eq a.email b.email ≡ false) rows
      → Imported rows db (import_rows business rows db)
  unfolding import_rows
  import_rows-Imported [] db k h = record {
    written = tt;
    others = λ q none_left. refl;
    grown = omega arith;
  }
  import_rows-Imported (r ∷ rows) db k h =
      let p = put-Put r db k in
      let rest = import_rows-Imported rows (put r db) p.keyed h.1 in
      record {
        written = (
          record {
            customer = p.written.customer;
            found =
                rest.others r (
                  All-map (λ q. text_eq r.email q.email ≡ false)
                    (λ q. text_eq q.email r.email ≡ false) rows h.0
                    (λ q e. apart_comm r.email q.email e))
                ∙ p.written.found;
            name = p.written.name;
            phone = p.written.phone;
          },
          rest.written,
        );
        others = λ q apart. rest.others q apart.1 ∙ p.others q apart.0;
        grown =
            let later = ap length (existing_later r db rows p h.0) in
            elim (Bool-cases (is_existing business db r)) [
              | inl e ↦ rw e (omega (arith, rest.grown, later, rw e at p.grown))
              | inr e ↦ rw e (omega (arith, rest.grown, later, rw e at p.grown))
            ];
      }
