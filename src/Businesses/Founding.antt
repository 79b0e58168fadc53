-- ===== src/Businesses/Founding.antt =====
-- businesses.service.ts: the business that a user founds.
use turno_flow.Prelude.{
  ◌≡◌, refl, subst, arith, [], ◌∷◌, true, false, not, inl, inr, ok, err, conflict, require,
  bind_elim, ok-injective, any_of_In, In, In-append_iff,
}
use turno_flow.Text.{Text}
use turno_flow.Time.{Runtime}
use turno_flow.Schema.{Db, Business}
use turno_flow.Store.{outbox_create, audit_create}
use turno_flow.Slug.{create_available_slug, is_taken}
use turno_flow.Slug.Available.{create_available_slug_free}
use turno_flow.Businesses.{AuthenticatedUser, is_associated}
use turno_flow.Businesses.Catalog.{BusinessInput, has_business, new_business, create_current}
use turno_flow.Businesses.Schedule.{or_else}

module _ (rt : Runtime) (normalize : Text → Text) (user : AuthenticatedUser) where
  refused :
      (db : Db) (b : Business) (again : BusinessInput)
      → In b db.businesses
      → b.owner_id ≡ user.id
      → create_current rt normalize user again db ≡ err (conflict "User already has a business")
  unfolding create_current
  refused db b again m e =
      let own : is_associated db.members user.id b ≡ true = ground arith in
      let has : has_business db user.id ≡ true =
        any_of_In (is_associated db.members user.id) db.businesses m own in
      rw (create_current, has) refl

  -- A user who founded a business, which has a slug that no business had, cannot found another.
  pub create_current-once :
      (input again : BusinessInput) (db db' : Db) {b : Business}
      → create_current rt normalize user input db ≡ ok (db', b)
      → (is_taken db b.slug ≡ false)
        × In b db'.businesses
        × (create_current rt normalize user again db'
            ≡ err (conflict "User already has a business"))
  unfolding create_current outbox_create audit_create
  create_current-once input again db db' {b} h =
      bind_elim (require (not (has_business db user.id)) (conflict "User already has a business")) _
        h
        (λ _ e1 h1.
          bind_elim (create_available_slug rt normalize db (or_else input.slug input.name)) _ h1
            (λ slug e2 h2.
              let new = new_business input user.id slug db.next_id in
              let same = ok-injective h2 in
              let listed : In b db'.businesses =
                subst (λ p. In p.1 p.0.businesses) same
                  ((In-append_iff new db.businesses (new ∷ [])).1 (inr (inl refl))) in
              let own : b.owner_id ≡ user.id = subst (λ p. p.1.owner_id ≡ user.id) same refl in
              let free =
                create_available_slug_free rt normalize db (or_else input.slug input.name) e2 in
              (
                subst (λ p. is_taken db p.1.slug ≡ false) same free,
                listed,
                refused db' b again listed own,
              )))
