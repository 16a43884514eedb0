-- ===== src/Db/Writers.antt =====
-- What an update does that finds the version it expects.
use lite_mcp.Base.{
  ℕ, true, List, [], ◌∷◌, ◌≡◌, ◌≢◌, refl, eqb, Option, some, none, if◌then◌else◌, arith, Bool-cases,
  inl, inr,
}
use mathlib.Core.Path.{subst}
use lite_mcp.Base.Integer.{ℤ, equals, increment}
use lite_mcp.Base.Exec.{ok}
use lite_mcp.Db.Service.{Service}
use lite_mcp.Db.Repository.{selects, rowcount, update_rows, assign, update_with_row_version}

-- The row of an id.
unfoldable pub find_service : ℕ → List Service → Option Service
find_service i [] = none
find_service i (s ∷ rows) = if eqb s.id i then some s else find_service i rows

-- No row of the table has the id.
abbrev pub Lacks : ℕ → List Service → Type 0
Lacks i [] = Unit
Lacks i (s ∷ rows) = (s.id ≢ i) × Lacks i rows

-- The primary key.
abbrev pub Keyed : List Service → Type 0
Keyed [] = Unit
Keyed (s ∷ rows) = Lacks s.id rows × Keyed rows

module _ (i : ℕ) (n : ℤ) (f : Service → Service) where
  count-Lacks : (rows : List Service) → Lacks i rows → rowcount i n rows ≡ 0
  unfolding rowcount selects
  count-Lacks [] h = refl
  count-Lacks (s ∷ rows) (h, hs) = ground (arith, count-Lacks rows hs)

  selected :
      (rows : List Service) (s : Service)
      → find_service i rows ≡ some s
      → equals s.row_version n ≡ true
      → s.deleted_at ≡ none
      → selects i n s ≡ true
  unfolding find_service selects
  selected [] s e v d = cc
  selected (r ∷ rows) s e v d = ground (arith, selected rows s)

  same : (j : ℕ) → eqb j i ≡ true → j ≡ i
  same j h = ground arith

  count-one :
      (rows : List Service) (s : Service)
      → Keyed rows
      → find_service i rows ≡ some s
      → selects i n s ≡ true
      → rowcount i n rows ≡ 1
  unfolding rowcount find_service selects
  count-one [] s k e h = cc
  count-one (r ∷ rows) s (l, k) e h = elim (Bool-cases (eqb r.id i)) [
    | inl q ↦
        ground (arith, count-Lacks rows (subst (λ j. Lacks j rows) (omega (arith, same r.id q)) l))
    | inr q ↦ ground (arith, count-one rows s k)
  ]

  -- A row's id is kept by the assignments.
  module _ (keeps : (s : Service) → (f s).id ≡ s.id) where
    find-update :
        (rows : List Service) (s : Service)
        → Keyed rows
        → find_service i rows ≡ some s
        → selects i n s ≡ true
        → find_service i (update_rows i n f rows) ≡ some (assign f s)
    unfolding update_rows find_service selects
    find-update [] s k e h = cc
    find-update (r ∷ rows) s (l, k) e h = ground (arith, find-update rows s k, keeps r)

    find-others :
        (rows : List Service) (j : ℕ)
        → i ≢ j
        → find_service j (update_rows i n f rows) ≡ find_service j rows
    unfolding update_rows find_service selects
    find-others [] j d = refl
    find-others (r ∷ rows) j d = ground (arith, find-others rows j d, keeps r)

    result-update :
        (rows : List Service)
        → rowcount i n rows ≡ 1
        → update_with_row_version i n f rows ≡ (ok true, update_rows i n f rows)
    unfolding update_with_row_version
    result-update rows h = rw h refl

    -- In a table with a primary key, an update that expects the version of a row that is not deleted
    -- succeeds: the row has what was assigned, with the version after the expected one, and every
    -- other row is as it was. The assignments keep the id of a row.
    update_applies :
        (rows : List Service) (s : Service)
        → Keyed rows
        → find_service i rows ≡ some s
        → equals s.row_version n ≡ true
        → s.deleted_at ≡ none
        → ((update_with_row_version i n f rows).0 ≡ ok true)
          × (find_service i (update_with_row_version i n f rows).1
              ≡ some (record (f s) { row_version = increment s.row_version }))
          × ((j : ℕ)
              → i ≢ j
              → find_service j (update_with_row_version i n f rows).1 ≡ find_service j rows)
    update_applies rows s k e v d =
        let sel = selected rows s e v d in
        rw (result-update rows (count-one rows s k e sel))
          (refl, find-update rows s k e sel, find-others rows)
