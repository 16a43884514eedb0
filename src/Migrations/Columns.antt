-- ===== src/Migrations/Columns.antt =====
-- The columns of the tables in backend/migrations/versions, by their arguments.
use lite_mcp.Base.{String, true, false, none, some, List, [], ◌∷◌}
use lite_mcp.Migrations.{ColumnType, varchar, utc_ts, integer, Column, Default, default_text}

module _ (name : String) (kind : ColumnType) where
  abbrev pub required : Column
  required = record {
    name = name;
    kind = kind;
    is_nullable = false;
    is_primary = false;
    is_unique = false;
    default = none;
  }

  abbrev pub nullable : Column
  nullable = record required { is_nullable = true }

  abbrev pub primary : Column
  primary = record required { is_primary = true }

  abbrev pub unique : Column
  unique = record required { is_unique = true }

-- `server_default`
abbrev pub defaulted : Default → Column → Column
defaulted d c = record c { default = some d }

-- `_audit_columns`, which is the same in each of the files
abbrev pub audit_columns : List Column
audit_columns =
    required "created_at" utc_ts
    ∷ required "created_by" (varchar 128)
    ∷ required "updated_at" utc_ts
    ∷ required "updated_by" (varchar 128)
    ∷ defaulted (default_text "1") (required "row_version" integer)
    ∷ []
