-- ===== src/Migrations/Models/Accounts.antt =====
-- backend/src/litemcp/db/models.py: the tables user, team and team_membership.
use lite_mcp.Base.{[], ◌∷◌, ◌++◌}
use lite_mcp.Migrations.{
  Table, uuid, utc_ts, long_text, enum_code, varchar, integer, default_text, unique_constraint,
  check_constraint, foreign_key,
}
use lite_mcp.Migrations.Columns.{required, nullable, primary, unique, defaulted, audit_columns}

abbrev pub user_model : Table
user_model = record {
  name = "user";
  columns =
      (primary "id" uuid
        ∷ required "username" (varchar 128)
        ∷ unique "username_normalized" (varchar 128)
        ∷ required "password_hash" (varchar 255)
        ∷ required "role" (enum_code ("admin" ∷ "user" ∷ []))
        ∷ required "status" (enum_code ("active" ∷ "disabled" ∷ "locked" ∷ []))
        ∷ required "password_changed_at" utc_ts
        ∷ nullable "last_login_at" utc_ts
        ∷ defaulted (default_text "0") (required "failed_login_count" integer)
        ∷ nullable "failed_login_window_started_at" utc_ts
        ∷ nullable "locked_until" utc_ts
        ∷ [])
      ++ audit_columns;
  constraints =
      check_constraint "ck_user_role" "role IN ('admin', 'user')"
      ∷ check_constraint "ck_user_status" "status IN ('active', 'disabled', 'locked')"
      ∷ [];
}

abbrev pub team_model : Table
team_model = record {
  name = "team";
  columns =
      (primary "id" uuid
        ∷ required "key" (varchar 64)
        ∷ unique "key_normalized" (varchar 64)
        ∷ required "name" (varchar 128)
        ∷ nullable "description" long_text
        ∷ required "status" (enum_code ("active" ∷ "archived" ∷ []))
        ∷ [])
      ++ audit_columns;
  constraints = check_constraint "ck_team_status" "status IN ('active', 'archived')" ∷ [];
}

abbrev pub team_membership_model : Table
team_membership_model = record {
  name = "team_membership";
  columns =
      (primary "id" uuid
        ∷ required "team_id" uuid
        ∷ required "user_id" uuid
        ∷ required "team_role" (enum_code ("admin" ∷ "member" ∷ []))
        ∷ [])
      ++ audit_columns;
  constraints =
      foreign_key "" ("team_id" ∷ []) "team" ("id" ∷ []) ""
      ∷ foreign_key "" ("user_id" ∷ []) "user" ("id" ∷ []) ""
      ∷ unique_constraint "uq_team_membership_team_user" ("team_id" ∷ "user_id" ∷ [])
      ∷ check_constraint "ck_team_membership_team_role" "team_role IN ('admin', 'member')"
      ∷ [];
}
