-- ===== src/Migrations/Models/Services.antt =====
-- backend/src/litemcp/db/models.py: the tables mcp_service and service_config_revision.
use lite_mcp.Base.{[], ◌∷◌, ◌++◌}
use lite_mcp.Migrations.{
  Table, uuid, utc_ts, json_doc, long_text, enum_code, varchar, integer, big_integer, numeric,
  default_text, unique_constraint, index, check_constraint, foreign_key,
}
use lite_mcp.Migrations.Columns.{required, nullable, primary, defaulted, audit_columns}

abbrev pub mcp_service_model : Table
mcp_service_model = record {
  name = "mcp_service";
  columns =
      (primary "id" uuid
        ∷ required "namespace_key" (varchar 64)
        ∷ required "team_id" uuid
        ∷ required "type" (enum_code ("http_api" ∷ "stdio" ∷ "mcp_http" ∷ []))
        ∷ required "name" (varchar 128)
        ∷ required "name_normalized" (varchar 128)
        ∷ defaulted (default_text "'LIVE'") (required "uniqueness_scope" (varchar 64))
        ∷ required "tags" json_doc
        ∷ nullable "description" long_text
        ∷ nullable "icon_object_key" (varchar 512)
        ∷ required "desired_status" (enum_code ("enabled" ∷ "disabled" ∷ []))
        ∷ defaulted (default_text "1") (required "generation" big_integer)
        ∷ defaulted (default_text "0") (required "observed_generation" big_integer)
        ∷ required "runtime_status"
            (enum_code ("pending" ∷ "ready" ∷ "degraded" ∷ "unhealthy" ∷ "failed" ∷ []))
        ∷ nullable "active_config_revision_id" uuid
        ∷ nullable "active_toolset_id" uuid
        ∷ required "agent_auth_mode" (enum_code ("api_key" ∷ "none" ∷ "oauth2" ∷ []))
        ∷ nullable "rate_limit_qps" (numeric 10 2)
        ∷ nullable "rate_limit_burst" integer
        ∷ nullable "queue_max_depth" integer
        ∷ nullable "queue_timeout_ms" integer
        ∷ nullable "stdio_instance_max" integer
        ∷ nullable "stdio_concurrency_per_instance" integer
        ∷ [])
      ++ audit_columns
      ++ (nullable "deleted_at" utc_ts ∷ nullable "deleted_by" (varchar 128) ∷ []);
  constraints =
      foreign_key "" ("team_id" ∷ []) "team" ("id" ∷ []) "RESTRICT"
      ∷ unique_constraint "uq_mcp_service_namespace_name_scope"
          ("namespace_key" ∷ "name_normalized" ∷ "uniqueness_scope" ∷ [])
      ∷ index "ix_mcp_service_namespace_desired_status_type"
          ("namespace_key" ∷ "desired_status" ∷ "type" ∷ [])
      ∷ index "ix_mcp_service_team_desired_status" ("team_id" ∷ "desired_status" ∷ [])
      ∷ index "ix_mcp_service_created_by_deleted_at" ("created_by" ∷ "deleted_at" ∷ [])
      ∷ check_constraint "ck_mcp_service_type" "type IN ('http_api', 'stdio', 'mcp_http')"
      ∷ check_constraint "ck_mcp_service_desired_status" "desired_status IN ('enabled', 'disabled')"
      ∷ check_constraint "ck_mcp_service_runtime_status"
          "runtime_status IN ('pending', 'ready', 'degraded', 'unhealthy', 'failed')"
      ∷ check_constraint "ck_mcp_service_agent_auth_mode"
          "agent_auth_mode IN ('api_key', 'none', 'oauth2')"
      ∷ check_constraint "ck_mcp_service_generation_order" "observed_generation <= generation"
      ∷ check_constraint "ck_mcp_service_stdio_only_null_for_non_stdio"
          "(type = 'stdio' OR (queue_max_depth IS NULL AND queue_timeout_ms IS NULL AND stdio_instance_max IS NULL AND stdio_concurrency_per_instance IS NULL))"
      ∷ check_constraint "ck_mcp_service_deleted_scope_consistency"
          "(deleted_at IS NULL AND uniqueness_scope = 'LIVE') OR (deleted_at IS NOT NULL AND uniqueness_scope <> 'LIVE')"
      ∷ [];
}

abbrev pub service_config_revision_model : Table
service_config_revision_model = record {
  name = "service_config_revision";
  columns =
      primary "id" uuid
      ∷ required "service_id" uuid
      ∷ required "generation" big_integer
      ∷ required "schema_version" integer
      ∷ required "config_kind" (enum_code ("http_api" ∷ "stdio" ∷ "mcp_http" ∷ []))
      ∷ required "public_config" json_doc
      ∷ nullable "secret_blob_id" uuid
      ∷ nullable "source_descriptor" json_doc
      ∷ required "source_mode"
          (enum_code ("fastmcp_introspection" ∷ "descriptor" ∷ "manual" ∷ "remote_sync" ∷ []))
      ∷ required "config_digest" (varchar 64)
      ∷ required "state" (
          enum_code
            ("draft" ∷ "validating" ∷ "validated" ∷ "active" ∷ "rejected" ∷ "superseded" ∷ []))
      ∷ nullable "validation_report" json_doc
      ∷ nullable "activated_at" utc_ts
      ∷ nullable "superseded_at" utc_ts
      ∷ required "created_at" utc_ts
      ∷ required "created_by" (varchar 128)
      ∷ [];
  constraints =
      foreign_key "" ("service_id" ∷ []) "mcp_service" ("id" ∷ []) "RESTRICT"
      ∷ unique_constraint "uq_service_config_revision_service_generation"
          ("service_id" ∷ "generation" ∷ [])
      ∷ unique_constraint "uq_service_config_revision_id_service" ("id" ∷ "service_id" ∷ [])
      ∷ check_constraint "ck_service_config_revision_config_kind"
          "config_kind IN ('http_api', 'stdio', 'mcp_http')"
      ∷ check_constraint "ck_service_config_revision_source_mode"
          "source_mode IN ('fastmcp_introspection', 'descriptor', 'manual', 'remote_sync')"
      ∷ check_constraint "ck_service_config_revision_state"
          "state IN ('draft', 'validating', 'validated', 'active', 'rejected', 'superseded')"
      ∷ [];
}
