-- ===== src/Migrations.antt =====
-- backend/migrations/versions: the schema as the revisions build it, and the operations that they
-- call, by what SQL documents of its statements: when a database refuses one, and what a schema is
-- after it. Revisions is each file's calls. The rows that a revision inserts are left out.
pub mod Columns
pub mod Revisions
pub mod Altered
pub mod Closed
pub mod Front
pub mod Undone
pub mod Head
pub mod Limits
pub mod Models
pub mod Matches
mod Tests
use lite_mcp.Base.{
  ℕ, String, Bool, true, false, Option, none, some, List, [], ◌∷◌, ◌++◌, ◌||◌, ◌&&◌, not, ◌==◌, any,
  all, member, if◌then◌else◌,
}
use lite_mcp.Base.Maybe.{◌>>=◌}

-- The types of litemcp.db.types, and SQLAlchemy's that the revisions use.
pub data ColumnType : Type 0 where
  uuid utc_ts json_doc long_text ciphertext : ColumnType
  enum_code : List String → ColumnType
  varchar : ℕ → ColumnType
  -- single-byte characters on MySQL
  varchar_latin1 : ℕ → ColumnType
  integer big_integer boolean : ColumnType
  numeric : ℕ → ℕ → ColumnType

pub data Default : Type 0 where
  default_text : String → Default
  default_true : Default

pub record Column : Type 0 where
  pub name : String
  pub kind : ColumnType
  pub is_nullable : Bool
  pub is_primary : Bool
  pub is_unique : Bool
  pub default : Option Default

pub data Constraint : Type 0 where
  unique_constraint index : String → List String → Constraint
  check_constraint : String → String → Constraint
  -- name, columns, table and columns that they refer to, and `ondelete`
  foreign_key : String → List String → String → List String → String → Constraint

-- A table; a constraint or a reference that is written at a column is one of the table's.
pub record Table : Type 0 where
  pub name : String
  pub columns : List Column
  pub constraints : List Constraint

-- The tables, the latest first.
abbrev pub Schema : Type 0
Schema = List Table

pub data Op : Type 0 where
  create_table : Table → Op
  -- name, table, columns
  create_index : String → String → List String → Op
  -- name, table, condition
  create_check_constraint : String → String → String → Op
  -- name, table
  drop_constraint : String → String → Op
  drop_table bulk_insert : String → Op

abbrev pub constraint_name : Constraint → String
constraint_name (unique_constraint n cols) = n
constraint_name (index n cols) = n
constraint_name (check_constraint n sql) = n
constraint_name (foreign_key n cols t refs d) = n

-- The tables that a list of constraints refers to.
unfoldable targets_of : List Constraint → List String
targets_of [] = []
targets_of (foreign_key n cols t refs d ∷ cs) = t ∷ targets_of cs
targets_of (unique_constraint n cols ∷ cs) = targets_of cs
targets_of (index n cols ∷ cs) = targets_of cs
targets_of (check_constraint n sql ∷ cs) = targets_of cs

abbrev targets : Table → List String
targets t = targets_of t.constraints

unfoldable has_table : String → Schema → Bool
has_table n [] = false
has_table n (t ∷ s) = t.name == n || has_table n s

unfoldable has_constraint : String → List Constraint → Bool
has_constraint n [] = false
has_constraint n (c ∷ cs) = constraint_name c == n || has_constraint n cs

abbrev has_column : Table → String → Bool
has_column t n = any (λ c. c.name == n) t.columns

-- A change of the table of a name.
unfoldable alter : String → (Table → Option Table) → Schema → Option Schema
alter n f [] = none
alter n f (t ∷ s) =
    let rest = alter n f s in
    if t.name == n then (f t >>= λ t'. some (t' ∷ s)) else (rest >>= λ s'. some (t ∷ s'))

abbrev add : Constraint → Table → Option Table
add c t =
    if has_constraint (constraint_name c) t.constraints
    then none
    else some (record t { constraints = t.constraints ++ c ∷ [] })

abbrev add_index : String → List String → Table → Option Table
add_index n cols t = if all (has_column t) cols then add (index n cols) t else none

unfoldable without_check : String → List Constraint → List Constraint
without_check n [] = []
without_check n (check_constraint m sql ∷ cs) =
    let rest = without_check n cs in if m == n then rest else check_constraint m sql ∷ rest
without_check n (unique_constraint m cols ∷ cs) = unique_constraint m cols ∷ without_check n cs
without_check n (index m cols ∷ cs) = index m cols ∷ without_check n cs
without_check n (foreign_key m cols t refs d ∷ cs) =
    foreign_key m cols t refs d ∷ without_check n cs

abbrev drop_check : String → Table → Option Table
drop_check n t =
    if has_constraint n t.constraints
    then some (record t { constraints = without_check n t.constraints })
    else none

unfoldable without_table : String → Schema → Schema
without_table n [] = []
without_table n (t ∷ s) = let rest = without_table n s in if t.name == n then rest else t ∷ rest

-- Another table than the one of the name refers to it.
unfoldable is_target : String → Schema → Bool
is_target n [] = false
is_target n (t ∷ s) = not (t.name == n) && member n (targets t) || is_target n s

-- Each of the tables is there, or is the one that is created.
abbrev are_there : String → Schema → List String → Bool
are_there own s ns = all (λ n. own == n || has_table n s) ns

-- An operation, `none` where the database refuses it.
pub apply : Op → Schema → Option Schema
apply (create_table t) s =
    if has_table t.name s
    then none
    else if are_there t.name s (targets t)
    then some (t ∷ s)
    else none
apply (create_index n t cols) s = alter t (add_index n cols) s
apply (create_check_constraint n t sql) s = alter t (add (check_constraint n sql)) s
apply (drop_constraint n t) s = alter t (drop_check n) s
apply (drop_table n) s =
    if not (has_table n s) then none else if is_target n s then none else some (without_table n s)
apply (bulk_insert n) s = if has_table n s then some s else none

pub run : List Op → Schema → Option Schema
run [] s = some s
run (op ∷ ops) s = apply op s >>= run ops
