-- ===== src/Prelude/Exclusion.antt =====
-- Tables whose rows exclude one another by a symmetric test, which holds of no row with itself.
use mathlib.Core.Path.{◌≡◌}
use mathlib.Core.Logic.{inl, inr}
use mathlib.Core.Bool.{Bool, false}
use mathlib.Core.List.{List, [], ◌∷◌, ◌++◌}
use turno_flow.Prelude.Lists.{update_where, In, In-concat}
use turno_flow.Prelude.Updates.{In-update_where}

module _ {A : Type 0} (test : A → A → Bool) where
  -- No two rows exclude one another.
  abbrev pub NoClash : List A → Type 0
  NoClash rows = (a b : A) → In a rows → In b rows → test a b ≡ false

  module _ (comm : (a b : A) → test a b ≡ test b a) (irreflexive : (a : A) → test a a ≡ false)
      (a : A) (rows : List A) where
    -- A row that none of the others excludes can be added, or take the place of those with a key.
    pub NoClash-insert :
        NoClash rows → ((b : A) → In b rows → test a b ≡ false) → NoClash (rows ++ a ∷ [])
    NoClash-insert h fits x y mx my = elim (In-concat x a rows mx) [
      | inl mx' ↦ elim (In-concat y a rows my) [
        | inl my' ↦ h x y mx' my'
        | inr ey ↦ rw (ey, comm x a) (fits x mx')
      ]
      | inr ex ↦ elim (In-concat y a rows my) [
        | inl my' ↦ rw ex (fits y my')
        | inr ey ↦ rw (ex, ey) (irreflexive a)
      ]
    ]

    pub NoClash-replace :
        (p : A → Bool)
        → NoClash rows
        → ((b : A) → In b rows → test a b ≡ false)
        → NoClash (update_where p (λ _. a) rows)
    NoClash-replace p h fits x y mx my = elim (In-update_where p (λ _. a) x rows mx) [
      | inl (mx', _) ↦ elim (In-update_where p (λ _. a) y rows my) [
        | inl (my', _) ↦ h x y mx' my'
        | inr (_, _, _, ey) ↦ rw (ey, comm x a) (fits x mx')
      ]
      | inr (_, _, _, ex) ↦ elim (In-update_where p (λ _. a) y rows my) [
        | inl (my', _) ↦ rw ex (fits y my')
        | inr (_, _, _, ey) ↦ rw (ex, ey) (irreflexive a)
      ]
    ]
