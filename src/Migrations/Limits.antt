-- ===== src/Migrations/Limits.antt =====
-- The limits of MySQL (InnoDB, with the character set utf8mb4) for a schema of the revisions: 3072
-- bytes for a key and 65535 for a row, and that of PostgreSQL
-- for a name. A column that the database refuses in a key has no size there.
use lite_mcp.Base.{
  ℕ, String, Bool, true, false, Option, none, some, List, [], ◌∷◌, ◌++◌, ◌≡◌, sym, ap, refl, ◌∙◌,
  ◌+◌, ◌*◌, ◌&&◌, ◌==◌, leb, all, member, arith, if◌then◌else◌,
}
use lite_mcp.Base.Length.{len}
use lite_mcp.Base.Maybe.{◌>>=◌, >>=-eq-some}
use lite_mcp.Db.Types.{
  Physical, char, varchar, datetime, id_impl, utc_ts_impl, json_doc_impl, ciphertext_impl,
  long_text_impl, enum_code_impl, enum_length, longest,
}
use lite_mcp.Migrations
use lite_mcp.Migrations.{
  ColumnType, uuid, utc_ts, json_doc, long_text, ciphertext, enum_code, varchar_latin1, integer,
  big_integer, boolean, numeric, Column, Table, Schema, Constraint, unique_constraint, index,
  check_constraint, foreign_key, constraint_name, run, apply, alter, has_table, has_constraint,
  is_target, targets_of,
}
use lite_mcp.Migrations.Revisions.{Revision, upgrade, history}
use lite_mcp.Migrations.Undone.{migrate}
use lite_mcp.Migrations.Altered.{some-inj}

-- The bytes of a column in a key, with the two of a length.
abbrev of_physical : Physical → Option ℕ
of_physical (char n) = some (4 * n)
of_physical (varchar n) = some (4 * n + 2)
of_physical (datetime n) = some 8
of_physical _ = none

abbrev key_bytes : ColumnType → Option ℕ
key_bytes uuid = of_physical (id_impl "mysql")
key_bytes utc_ts = of_physical (utc_ts_impl "mysql")
key_bytes json_doc = of_physical (json_doc_impl "mysql" true)
key_bytes long_text = of_physical (long_text_impl "mysql")
key_bytes ciphertext = of_physical (ciphertext_impl "mysql")
key_bytes (enum_code codes) = of_physical (enum_code_impl codes)
key_bytes (Migrations.varchar n) = of_physical (varchar n)
key_bytes (varchar_latin1 n) = some (n + 2)
key_bytes integer = some 4
key_bytes big_integer = some 8
key_bytes boolean = some 1
-- nine digits take four bytes
key_bytes (numeric p s) = some p

-- The bytes in a row: a column that no key can have is stored apart and leaves a pointer; a bit says
-- whether the column is NULL.
abbrev row_bytes : Option ℕ → ℕ
row_bytes none = 13
row_bytes (some n) = n + 1

unfoldable pub row_size : List Column → ℕ
row_size [] = 0
row_size (c ∷ cs) = row_bytes (key_bytes c.kind) + row_size cs

unfoldable pub bytes_of : String → List Column → Option ℕ
bytes_of n [] = none
bytes_of n (c ∷ cs) = let rest = bytes_of n cs in if c.name == n then key_bytes c.kind else rest

unfoldable pub key_size : List Column → List String → Option ℕ
key_size columns [] = some 0
key_size columns (n ∷ ns) =
    bytes_of n columns >>= λ here. key_size columns ns >>= λ rest. some (here + rest)

abbrev within : Option ℕ → Bool
within none = false
within (some n) = leb n 3072

abbrev pub constraint_fits : List Column → Constraint → Bool
constraint_fits columns (unique_constraint n names) = within (key_size columns names)
constraint_fits columns (index n names) = within (key_size columns names)
-- the columns of a reference are indexed
constraint_fits columns (foreign_key n names t refs d) = within (key_size columns names)
constraint_fits columns (check_constraint n sql) = true

abbrev pub column_fits : Column → Bool
column_fits c =
    if c.is_primary
    then within (key_bytes c.kind)
    else if c.is_unique
    then within (key_bytes c.kind)
    else true

-- An identifier that PostgreSQL does not cut off.
unfoldable pub short : String → Bool
unfolding len
short n = leb (len n) 63

-- Every key of the table, its rows and its names are within the limits.
abbrev pub table_fits : Table → Bool
table_fits t =
    all column_fits t.columns
    && all (constraint_fits t.columns) t.constraints
    && leb (row_size t.columns) 65535
    && short t.name
    && all (λ c. short c.name) t.columns
    && all (λ c. short (constraint_name c)) t.constraints

abbrev or_false : Option Schema → (Schema → Bool) → Bool
or_false none f = false
or_false (some s) f = f s

-- The schema before and after each revision is within the limits.
all_fit : List Revision → Schema → Bool
all_fit [] s = all table_fits s
all_fit (r ∷ rs) s = all table_fits s && or_false (run (upgrade r) s) (all_fit rs)

first-fits : (rs : List Revision) (s : Schema) → all_fit rs s ≡ true → all table_fits s ≡ true
unfolding all_fit
first-fits [] s h = h
first-fits (r ∷ rs) s h = ground arith

later-fits :
    (rs later : List Revision) (s s' : Schema)
    → all_fit (rs ++ later) s ≡ true
    → migrate rs s ≡ some s'
    → all table_fits s' ≡ true
unfolding all_fit migrate
later-fits [] later s s' h m = rw (sym (some-inj s s' m)) (first-fits later s h)
later-fits (r ∷ rs) later s s' h m =
    let (middle, here, rest) = >>=-eq-some (run (upgrade r) s) (migrate rs) s' m in
    later-fits rs later middle s'
      (at_middle (all table_fits s) (run (upgrade r) s) middle (all_fit (rs ++ later)) here h) rest
  where
    at_middle :
        (b : Bool) (o : Option Schema) (middle : Schema) (f : Schema → Bool)
        → o ≡ some middle
        → (b && or_false o f) ≡ true
        → f middle ≡ true
    at_middle b none middle f e h = absurd cc
    at_middle false (some s) middle f e h = cc
    at_middle true (some s) middle f e h = cc

history-all_fit : all_fit history [] ≡ true
unfolding all_fit run apply alter has_table has_constraint is_target targets_of member row_size
    bytes_of key_size enum_length longest len short
history-all_fit = refl

-- After any revision of the history, every key of every table is within MySQL's 3072 bytes, every row
-- within its 65535, and every name within the 63 characters of PostgreSQL.
pub within_limits :
    (rs later : List Revision) (s : Schema)
    → history ≡ rs ++ later
    → migrate rs [] ≡ some s
    → all table_fits s ≡ true
within_limits rs later s e m =
    later-fits rs later [] s (ap (λ x. all_fit x []) (sym e) ∙ history-all_fit) m
