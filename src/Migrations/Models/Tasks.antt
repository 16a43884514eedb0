-- ===== src/Migrations/Models/Tasks.antt =====
-- backend/src/litemcp/db/models.py: the tables service_condition and mcp_task.
use lite_mcp.Base.{[], ◌∷◌, ◌++◌}
use lite_mcp.Migrations.{
  Table, uuid, utc_ts, enum_code, varchar, integer, big_integer, unique_constraint,
  check_constraint, foreign_key,
}
use lite_mcp.Migrations.Columns.{required, nullable, primary, audit_columns}

abbrev pub service_condition_model : Table
service_condition_model = record {
  name = "service_condition";
  columns =
      (primary "id" uuid
        ∷ required "service_id" uuid
        ∷ required "type" (
            enum_code (
              "ConfigReady" ∷ "BuildReady" ∷ "ToolsReady" ∷ "RuntimeHealthy" ∷ "UpstreamReachable"
              ∷ []))
        ∷ required "status" (enum_code ("true" ∷ "false" ∷ "unknown" ∷ []))
        ∷ required "reason" (varchar 64)
        ∷ nullable "message" (varchar 2048)
        ∷ required "observed_generation" big_integer
        ∷ required "last_transition_at" utc_ts
        ∷ nullable "last_probe_at" utc_ts
        ∷ [])
      ++ audit_columns;
  constraints =
      foreign_key "" ("service_id" ∷ []) "mcp_service" ("id" ∷ []) "RESTRICT"
      ∷ unique_constraint "uq_service_condition_service_type" ("service_id" ∷ "type" ∷ [])
      ∷ check_constraint "ck_service_condition_type"
          "type IN ('ConfigReady', 'BuildReady', 'ToolsReady', 'RuntimeHealthy', 'UpstreamReachable')"
      ∷ check_constraint "ck_service_condition_status" "status IN ('true', 'false', 'unknown')"
      ∷ [];
}

abbrev pub mcp_task_model : Table
mcp_task_model = record {
  name = "mcp_task";
  columns =
      primary "id" uuid
      ∷ required "service_id" uuid
      ∷ required "tool_id" uuid
      ∷ nullable "session_id_hash" (varchar 64)
      ∷ nullable "downstream_task_id" (varchar 255)
      ∷ required "status"
          (enum_code ("working" ∷ "input_required" ∷ "completed" ∷ "failed" ∷ "cancelled" ∷ []))
      ∷ nullable "status_message" (varchar 2048)
      ∷ nullable "result_artifact_id" uuid
      ∷ required "created_at" utc_ts
      ∷ required "last_updated_at" utc_ts
      ∷ nullable "expires_at" utc_ts
      ∷ nullable "poll_interval_ms" integer
      ∷ [];
  constraints =
      foreign_key "" ("service_id" ∷ []) "mcp_service" ("id" ∷ []) "RESTRICT"
      ∷ foreign_key "" ("tool_id" ∷ []) "mcp_tool" ("id" ∷ []) ""
      ∷ foreign_key "" ("result_artifact_id" ∷ []) "service_artifact" ("id" ∷ []) ""
      ∷ check_constraint "ck_mcp_task_status"
          "status IN ('working', 'input_required', 'completed', 'failed', 'cancelled')"
      ∷ check_constraint "ck_mcp_task_poll_interval_positive" "poll_interval_ms > 0"
      ∷ [];
}
