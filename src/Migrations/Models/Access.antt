-- ===== src/Migrations/Models/Access.antt =====
-- backend/src/litemcp/db/models.py: the tables mcp_service_permission and api_key.
use lite_mcp.Base.{[], ◌∷◌, ◌++◌}
use lite_mcp.Migrations.{
  Table, uuid, utc_ts, enum_code, varchar, integer, numeric, unique_constraint, index,
  check_constraint, foreign_key,
}
use lite_mcp.Migrations.Columns.{required, nullable, primary, audit_columns}

abbrev pub mcp_service_permission_model : Table
mcp_service_permission_model = record {
  name = "mcp_service_permission";
  columns =
      (primary "id" uuid
        ∷ required "service_id" uuid
        ∷ required "principal_type" (enum_code ("user" ∷ "team" ∷ "everyone" ∷ []))
        ∷ nullable "user_id" uuid
        ∷ nullable "team_id" uuid
        ∷ required "role" (enum_code ("editor" ∷ "viewer" ∷ []))
        ∷ required "principal_key" (varchar 80)
        ∷ [])
      ++ audit_columns;
  constraints =
      foreign_key "" ("service_id" ∷ []) "mcp_service" ("id" ∷ []) "RESTRICT"
      ∷ foreign_key "" ("user_id" ∷ []) "user" ("id" ∷ []) ""
      ∷ foreign_key "" ("team_id" ∷ []) "team" ("id" ∷ []) ""
      ∷ unique_constraint "uq_mcp_service_permission_service_principal_key"
          ("service_id" ∷ "principal_key" ∷ [])
      ∷ check_constraint "ck_mcp_service_permission_principal_type"
          "principal_type IN ('user', 'team', 'everyone')"
      ∷ check_constraint "ck_mcp_service_permission_role" "role IN ('editor', 'viewer')"
      ∷ check_constraint "ck_mcp_service_permission_user_id_consistency"
          "(principal_type='user' and user_id is not null) or (principal_type!='user' and user_id is null)"
      ∷ check_constraint "ck_mcp_service_permission_team_id_consistency"
          "(principal_type='team' and team_id is not null) or (principal_type!='team' and team_id is null)"
      ∷ check_constraint "ck_mcp_service_permission_role_scope"
          "(principal_type='user') or (role='viewer')"
      ∷ index "ix_mcp_service_permission_service_principal_type"
          ("service_id" ∷ "principal_type" ∷ [])
      ∷ index "ix_mcp_service_permission_user_role_service" ("user_id" ∷ "role" ∷ "service_id" ∷ [])
      ∷ index "ix_mcp_service_permission_team_service" ("team_id" ∷ "service_id" ∷ [])
      ∷ [];
}

abbrev pub api_key_model : Table
api_key_model = record {
  name = "api_key";
  columns =
      (primary "id" uuid
        ∷ required "service_id" uuid
        ∷ required "public_id" (varchar 32)
        ∷ required "display_prefix" (varchar 32)
        ∷ required "secret_hash" (varchar 64)
        ∷ required "hash_algorithm" (varchar 32)
        ∷ nullable "pepper_version" (varchar 64)
        ∷ required "name" (varchar 128)
        ∷ required "status" (enum_code ("active" ∷ "revoked" ∷ []))
        ∷ nullable "expires_at" utc_ts
        ∷ nullable "last_used_at" utc_ts
        ∷ nullable "last_used_ip_hash" (varchar 64)
        ∷ nullable "revoked_at" utc_ts
        ∷ nullable "revoked_by" uuid
        ∷ nullable "rate_limit_qps" (numeric 10 2)
        ∷ nullable "rate_limit_burst" integer
        ∷ [])
      ++ audit_columns;
  constraints =
      foreign_key "" ("service_id" ∷ []) "mcp_service" ("id" ∷ []) "RESTRICT"
      ∷ foreign_key "" ("revoked_by" ∷ []) "user" ("id" ∷ []) ""
      ∷ unique_constraint "uq_api_key_public_id" ("public_id" ∷ [])
      ∷ unique_constraint "uq_api_key_secret_hash" ("secret_hash" ∷ [])
      ∷ check_constraint "ck_api_key_status" "status IN ('active', 'revoked')"
      ∷ check_constraint "ck_api_key_expires_after_created"
          "expires_at IS NULL OR expires_at > created_at"
      ∷ check_constraint "ck_api_key_revoked_requires_revoked_at"
          "(status!='revoked') OR (revoked_at IS NOT NULL)"
      ∷ check_constraint "ck_api_key_rate_limit_qps_positive"
          "rate_limit_qps IS NULL OR rate_limit_qps > 0"
      ∷ check_constraint "ck_api_key_rate_limit_burst_min"
          "rate_limit_burst IS NULL OR rate_limit_burst >= 1"
      ∷ index "ix_api_key_service_status_expires_at" ("service_id" ∷ "status" ∷ "expires_at" ∷ [])
      ∷ [];
}
