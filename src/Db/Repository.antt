-- ===== src/Db/Repository.antt =====
-- backend/src/litemcp/db/repository.py. The table is the list of its rows; the database, which runs
-- the statement, gives it the meaning of SQL's UPDATE. `public_fields` is what the assignments of the
-- mapping make of a row.
use lite_mcp.Base.{
  ℕ, suc, Bool, true, List, [], ◌∷◌, ◌≡◌, refl, ◌&&◌, eqb, is_none, if◌then◌else◌, arith,
  Bool-cases, inl, inr,
}
use lite_mcp.Base.Integer.{ℤ, equals, increment, equals-increment}
use lite_mcp.Base.Exec.{err, Exec, ◌>>=◌, ◌>>◌, pure, modify, gets, guard}
use lite_mcp.Db.Service.{Service}

pub data RepositoryError : Type 0 where
  concurrent_modification : RepositoryError

-- The WHERE clause.
unfoldable pub selects : ℕ → ℤ → Service → Bool
selects service_id expected s =
    eqb s.id service_id && equals s.row_version expected && is_none s.deleted_at

-- The number of rows that are selected, `result.rowcount`.
unfoldable pub rowcount : ℕ → ℤ → List Service → ℕ
rowcount service_id expected [] = 0
rowcount service_id expected (s ∷ rows) =
    let rest = rowcount service_id expected rows in
    if selects service_id expected s then suc rest else rest

-- The SET clause: the version is the last word.
abbrev pub assign : (Service → Service) → Service → Service
assign public_fields s = record (public_fields s) { row_version = increment s.row_version }

unfoldable pub update_rows : ℕ → ℤ → (Service → Service) → List Service → List Service
update_rows service_id expected public_fields [] = []
update_rows service_id expected public_fields (s ∷ rows) =
    let rest = update_rows service_id expected public_fields rows in
    if selects service_id expected s then assign public_fields s ∷ rest else s ∷ rest

unfoldable pub update_with_row_version :
    ℕ → ℤ → (Service → Service) → Exec (List Service) RepositoryError Bool
update_with_row_version service_id expected public_fields = do
  affected ← gets (rowcount service_id expected)
  modify (update_rows service_id expected public_fields)
  guard (eqb affected 1) concurrent_modification
  pure true

-- No row is left that the statement would select.
none_left :
    (i : ℕ) (n : ℤ) (f : Service → Service) (rows : List Service)
    → rowcount i n (update_rows i n f rows) ≡ 0
unfolding rowcount update_rows selects
none_left i n f [] = refl
none_left i n f (s ∷ rows) = ground (arith, none_left i n f rows, equals-increment s.row_version n)

unselected :
    (i : ℕ) (n : ℤ) (f : Service → Service) (rows : List Service)
    → rowcount i n rows ≡ 0
    → update_rows i n f rows ≡ rows
unfolding rowcount update_rows
unselected i n f [] h = refl
unselected i n f (s ∷ rows) h = ground (arith, unselected i n f rows)

-- An update whose WHERE clause selects no row.
refused :
    (i : ℕ) (n : ℤ) (f : Service → Service) (rows : List Service)
    → rowcount i n rows ≡ 0
    → update_with_row_version i n f rows ≡ (err concurrent_modification, rows)
unfolding update_with_row_version
refused i n f rows h = rw (h, unselected i n f rows h) refl

-- Raised or not, the statement ran.
pub rows-update :
    (i : ℕ) (n : ℤ) (f : Service → Service) (rows : List Service)
    → (update_with_row_version i n f rows).1 ≡ update_rows i n f rows
unfolding update_with_row_version
rows-update i n f rows = elim (Bool-cases (eqb (rowcount i n rows) 1)) [
  | inl e ↦ rw e refl
  | inr e ↦ rw e refl
]

-- After an update, another one of the same service that expects the same version is refused and
-- changes no row, whatever the two assign.
pub second_writer_refused :
    (service_id : ℕ) (expected : ℤ) (f g : Service → Service) (rows : List Service)
    → update_with_row_version service_id expected g
        (update_with_row_version service_id expected f rows).1
      ≡ (err concurrent_modification, (update_with_row_version service_id expected f rows).1)
second_writer_refused i n f g rows =
    rw (rows-update i n f rows) (refused i n g (update_rows i n f rows) (none_left i n f rows))
