-- ===== src/Migrations/Revisions/Service.antt =====
-- backend/migrations/versions/m1_model_002_service.py
use lite_mcp.Base.{List, [], ◌∷◌, ◌++◌}
use lite_mcp.Migrations.{
  Table, Op, uuid, utc_ts, json_doc, long_text, enum_code, varchar, integer, big_integer, numeric,
  default_text, unique_constraint, check_constraint, foreign_key, create_table, create_index,
  drop_table,
}
use lite_mcp.Migrations.Columns.{required, nullable, primary, defaulted, audit_columns}

abbrev pub mcp_service_table : Table
mcp_service_table = record {
  name = "mcp_service";
  columns =
      (primary "id" uuid
        ∷ required "namespace_key" (varchar 64)
        ∷ required "team_id" uuid
        ∷ required "type" (enum_code ("http_api" ∷ "stdio" ∷ "mcp_http" ∷ []))
        ∷ required "name" (varchar 128)
        ∷ required "name_normalized" (varchar 128)
        ∷ defaulted (default_text "'LIVE'") (required "uniqueness_scope" (varchar 64))
        ∷ required "tags" json_doc
        ∷ nullable "description" long_text
        ∷ nullable "icon_object_key" (varchar 512)
        ∷ required "desired_status" (enum_code ("enabled" ∷ "disabled" ∷ []))
        ∷ defaulted (default_text "1") (required "generation" big_integer)
        ∷ defaulted (default_text "0") (required "observed_generation" big_integer)
        ∷ required "runtime_status"
            (enum_code ("pending" ∷ "ready" ∷ "degraded" ∷ "unhealthy" ∷ "failed" ∷ []))
        ∷ nullable "active_config_revision_id" uuid
        ∷ nullable "active_toolset_id" uuid
        ∷ required "agent_auth_mode" (enum_code ("api_key" ∷ "none" ∷ "oauth2" ∷ []))
        ∷ nullable "rate_limit_qps" (numeric 10 2)
        ∷ nullable "rate_limit_burst" integer
        ∷ nullable "queue_max_depth" integer
        ∷ nullable "queue_timeout_ms" integer
        ∷ nullable "stdio_instance_max" integer
        ∷ nullable "stdio_concurrency_per_instance" integer
        ∷ nullable "deleted_at" utc_ts
        ∷ nullable "deleted_by" (varchar 128)
        ∷ [])
      ++ audit_columns;
  constraints =
      foreign_key "" ("team_id" ∷ []) "team" ("id" ∷ []) "RESTRICT"
      ∷ check_constraint "ck_mcp_service_type" "type IN ('http_api', 'stdio', 'mcp_http')"
      ∷ check_constraint "ck_mcp_service_desired_status" "desired_status IN ('enabled', 'disabled')"
      ∷ check_constraint "ck_mcp_service_runtime_status"
          "runtime_status IN ('pending', 'ready', 'degraded', 'unhealthy', 'failed')"
      ∷ check_constraint "ck_mcp_service_agent_auth_mode"
          "agent_auth_mode IN ('api_key', 'none', 'oauth2')"
      ∷ unique_constraint "uq_mcp_service_namespace_name_scope"
          ("namespace_key" ∷ "name_normalized" ∷ "uniqueness_scope" ∷ [])
      ∷ check_constraint "ck_mcp_service_generation_order" "observed_generation <= generation"
      ∷ check_constraint "ck_mcp_service_stdio_only_null_for_non_stdio"
          "(type = 'stdio' OR (queue_max_depth IS NULL AND queue_timeout_ms IS NULL AND stdio_instance_max IS NULL AND stdio_concurrency_per_instance IS NULL))"
      ∷ [];
}

abbrev pub upgrade_service : List Op
upgrade_service =
    create_table mcp_service_table
    ∷ create_index "ix_mcp_service_namespace_desired_status_type" "mcp_service"
        ("namespace_key" ∷ "desired_status" ∷ "type" ∷ [])
    ∷ create_index "ix_mcp_service_team_desired_status" "mcp_service"
        ("team_id" ∷ "desired_status" ∷ [])
    ∷ create_index "ix_mcp_service_created_by_deleted_at" "mcp_service"
        ("created_by" ∷ "deleted_at" ∷ [])
    ∷ []

abbrev pub downgrade_service : List Op
downgrade_service = drop_table "mcp_service" ∷ []
