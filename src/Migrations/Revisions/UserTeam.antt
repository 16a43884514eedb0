-- ===== src/Migrations/Revisions/UserTeam.antt =====
-- backend/migrations/versions/m1_model_001_user_team.py
use lite_mcp.Base.{List, [], ◌∷◌, ◌++◌}
use lite_mcp.Migrations.{
  Table, Op, uuid, utc_ts, long_text, enum_code, varchar, integer, default_text, unique_constraint,
  check_constraint, foreign_key, create_table, drop_table,
}
use lite_mcp.Migrations.Columns.{required, nullable, primary, unique, defaulted, audit_columns}

abbrev pub user_table : Table
user_table = record {
  name = "user";
  columns =
      (primary "id" uuid
        ∷ required "username" (varchar 128)
        ∷ unique "username_normalized" (varchar 128)
        ∷ required "password_hash" (varchar 255)
        ∷ required "role" (enum_code ("admin" ∷ "user" ∷ []))
        ∷ required "status" (enum_code ("active" ∷ "disabled" ∷ "locked" ∷ []))
        ∷ required "password_changed_at" utc_ts
        ∷ nullable "last_login_at" utc_ts
        ∷ defaulted (default_text "0") (required "failed_login_count" integer)
        ∷ nullable "failed_login_window_started_at" utc_ts
        ∷ nullable "locked_until" utc_ts
        ∷ [])
      ++ audit_columns;
  constraints =
      check_constraint "ck_user_role" "role IN ('admin', 'user')"
      ∷ check_constraint "ck_user_status" "status IN ('active', 'disabled', 'locked')"
      ∷ [];
}

abbrev pub team_table : Table
team_table = record {
  name = "team";
  columns =
      (primary "id" uuid
        ∷ required "key" (varchar 64)
        ∷ unique "key_normalized" (varchar 64)
        ∷ required "name" (varchar 128)
        ∷ nullable "description" long_text
        ∷ required "status" (enum_code ("active" ∷ "archived" ∷ []))
        ∷ [])
      ++ audit_columns;
  constraints = check_constraint "ck_team_status" "status IN ('active', 'archived')" ∷ [];
}

abbrev pub team_membership_table : Table
team_membership_table = record {
  name = "team_membership";
  columns =
      (primary "id" uuid
        ∷ required "team_id" uuid
        ∷ required "user_id" uuid
        ∷ required "team_role" (enum_code ("admin" ∷ "member" ∷ []))
        ∷ [])
      ++ audit_columns;
  constraints =
      foreign_key "" ("team_id" ∷ []) "team" ("id" ∷ []) ""
      ∷ foreign_key "" ("user_id" ∷ []) "user" ("id" ∷ []) ""
      ∷ check_constraint "ck_team_membership_team_role" "team_role IN ('admin', 'member')"
      ∷ unique_constraint "uq_team_membership_team_user" ("team_id" ∷ "user_id" ∷ [])
      ∷ [];
}

abbrev pub upgrade_user_team : List Op
upgrade_user_team =
    create_table user_table ∷ create_table team_table ∷ create_table team_membership_table ∷ []

abbrev pub downgrade_user_team : List Op
downgrade_user_team = drop_table "team_membership" ∷ drop_table "team" ∷ drop_table "user" ∷ []
