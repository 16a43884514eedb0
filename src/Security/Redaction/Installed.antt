-- ===== src/Security/Redaction/Installed.antt =====
-- backend/src/litemcp/security/redaction.py: `install_logging_redaction`. A redactor is known by its
-- `id()`; the state has the ids that are installed and the filters of each handler of the root and of
-- the loggers. `addFilter` adds a filter that is not there yet, as logging documents.
use lite_mcp.Base.{
  ℕ, Bool, true, false, List, [], ◌∷◌, ◌++◌, map, ◌≡◌, refl, ◌||◌, eqb, arith, All, if◌then◌else◌,
  Bool-cases, inl, inr,
}
use lite_mcp.Security.Redaction.Logging.{LogRecord}

-- `id in ids`
has_id : ℕ → List ℕ → Bool
has_id id [] = false
has_id id (x ∷ xs) = eqb x id || has_id id xs

pub record Logging : Type 0 where
  pub installed : List ℕ
  pub handlers : List (List ℕ)

-- `handler.addFilter(redactor)`
abbrev add_filter : ℕ → List ℕ → List ℕ
add_filter id filters = if has_id id filters then filters else filters ++ id ∷ []

-- `install_logging_redaction`
pub install : ℕ → Logging → Logging
install id s =
    if has_id id s.installed
    then s
    else record { installed = s.installed ++ id ∷ []; handlers = map (add_filter id) s.handlers }

-- The factory of records: each that is installed filters a new record, in their order.
make_record : (ℕ → LogRecord → LogRecord) → List ℕ → LogRecord → LogRecord
make_record filter_by [] r = r
make_record filter_by (id ∷ ids) r = make_record filter_by ids (filter_by id r)

has-last : (id : ℕ) (ids : List ℕ) → has_id id (ids ++ id ∷ []) ≡ true
unfolding has_id
has-last id [] = ground arith
has-last id (x ∷ xs) = ground (arith, has-last id xs)

add-has : (id : ℕ) (filters : List ℕ) → has_id id (add_filter id filters) ≡ true
add-has id filters = elim (Bool-cases (has_id id filters)) [
  | inl e ↦ rw e e
  | inr e ↦ rw e (has-last id filters)
]

All-have : (id : ℕ) (hs : List (List ℕ)) → All (λ fs. has_id id fs ≡ true) (map (add_filter id) hs)
All-have id [] = tt
All-have id (fs ∷ hs) = (add-has id fs, All-have id hs)

-- A redactor that was not installed yet is after it, at every handler; and a second time changes
-- nothing.
install_lem :
    (id : ℕ) (s : Logging)
    → has_id id s.installed ≡ false
    → (has_id id (install id s).installed ≡ true)
      × All (λ fs. has_id id fs ≡ true) (install id s).handlers
      × (install id (install id s) ≡ install id s)
unfolding install
install_lem id s h = rw (h, has-last id s.installed) (refl, All-have id s.handlers, refl)

make-append :
    (filter_by : ℕ → LogRecord → LogRecord) (ids : List ℕ) (id : ℕ) (r : LogRecord)
    → make_record filter_by (ids ++ id ∷ []) r ≡ filter_by id (make_record filter_by ids r)
unfolding make_record
make-append filter_by [] id r = refl
make-append filter_by (x ∷ ids) id r = make-append filter_by ids id (filter_by x r)
