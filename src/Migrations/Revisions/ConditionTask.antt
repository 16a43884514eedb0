-- ===== src/Migrations/Revisions/ConditionTask.antt =====
-- backend/migrations/versions/m1_model_006_condition_task.py
use lite_mcp.Base.{List, [], ◌∷◌, ◌++◌}
use lite_mcp.Migrations.{
  Table, Op, uuid, utc_ts, enum_code, varchar, integer, big_integer, unique_constraint,
  check_constraint, foreign_key, create_table, drop_table,
}
use lite_mcp.Migrations.Columns.{required, nullable, primary, audit_columns}

abbrev pub service_condition_table : Table
service_condition_table = record {
  name = "service_condition";
  columns =
      (primary "id" uuid
        ∷ required "service_id" uuid
        ∷ required "type" (
            enum_code (
              "ConfigReady" ∷ "BuildReady" ∷ "ToolsReady" ∷ "RuntimeHealthy" ∷ "UpstreamReachable"
              ∷ []))
        ∷ required "status" (enum_code ("true" ∷ "false" ∷ "unknown" ∷ []))
        ∷ required "reason" (varchar 64)
        ∷ nullable "message" (varchar 2048)
        ∷ required "observed_generation" big_integer
        ∷ required "last_transition_at" utc_ts
        ∷ nullable "last_probe_at" utc_ts
        ∷ [])
      ++ audit_columns;
  constraints =
      foreign_key "" ("service_id" ∷ []) "mcp_service" ("id" ∷ []) "RESTRICT"
      ∷ check_constraint "ck_service_condition_type"
          "type IN ('ConfigReady', 'BuildReady', 'ToolsReady', 'RuntimeHealthy', 'UpstreamReachable')"
      ∷ check_constraint "ck_service_condition_status" "status IN ('true', 'false', 'unknown')"
      ∷ unique_constraint "uq_service_condition_service_type" ("service_id" ∷ "type" ∷ [])
      ∷ [];
}

abbrev pub mcp_task_table : Table
mcp_task_table = record {
  name = "mcp_task";
  columns =
      (primary "id" uuid
        ∷ required "service_id" uuid
        ∷ required "tool_id" uuid
        ∷ nullable "session_id_hash" (varchar 64)
        ∷ nullable "downstream_task_id" (varchar 255)
        ∷ required "status"
            (enum_code ("working" ∷ "input_required" ∷ "completed" ∷ "failed" ∷ "cancelled" ∷ []))
        ∷ nullable "status_message" (varchar 2048)
        ∷ nullable "result_artifact_id" uuid
        ∷ required "created_at" utc_ts
        ∷ required "last_updated_at" utc_ts
        ∷ nullable "expires_at" utc_ts
        ∷ nullable "poll_interval_ms" integer
        ∷ []);
  constraints =
      foreign_key "" ("service_id" ∷ []) "mcp_service" ("id" ∷ []) "RESTRICT"
      ∷ foreign_key "" ("tool_id" ∷ []) "mcp_tool" ("id" ∷ []) ""
      ∷ check_constraint "ck_mcp_task_status"
          "status IN ('working', 'input_required', 'completed', 'failed', 'cancelled')"
      ∷ foreign_key "" ("result_artifact_id" ∷ []) "service_artifact" ("id" ∷ []) ""
      ∷ check_constraint "ck_mcp_task_poll_interval_positive" "poll_interval_ms > 0"
      ∷ [];
}

abbrev pub upgrade_condition_task : List Op
upgrade_condition_task = create_table service_condition_table ∷ create_table mcp_task_table ∷ []

abbrev pub downgrade_condition_task : List Op
downgrade_condition_task = drop_table "mcp_task" ∷ drop_table "service_condition" ∷ []
