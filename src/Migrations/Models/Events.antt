-- ===== src/Migrations/Models/Events.antt =====
-- backend/src/litemcp/db/models.py: the tables audit_event and outbox.
use lite_mcp.Base.{[], ◌∷◌}
use lite_mcp.Migrations.{
  Table, uuid, utc_ts, json_doc, enum_code, varchar, integer, big_integer, default_text,
  unique_constraint, index, check_constraint,
}
use lite_mcp.Migrations.Columns.{required, nullable, primary, defaulted}

abbrev pub audit_event_model : Table
audit_event_model = record {
  name = "audit_event";
  columns =
      primary "id" uuid
      ∷ required "occurred_at" utc_ts
      ∷ required "request_id" (varchar 128)
      ∷ required "actor_type" (enum_code ("user" ∷ "api_key" ∷ "system" ∷ "anonymous" ∷ []))
      ∷ nullable "actor_id" (varchar 128)
      ∷ required "action" (varchar 64)
      ∷ required "resource_type" (varchar 32)
      ∷ nullable "resource_id" (varchar 128)
      ∷ nullable "service_id" uuid
      ∷ required "result" (enum_code ("success" ∷ "denied" ∷ "failed" ∷ []))
      ∷ nullable "reason_code" (varchar 64)
      ∷ nullable "source_ip" (varchar 64)
      ∷ nullable "user_agent" (varchar 1024)
      ∷ nullable "changes" json_doc
      ∷ nullable "metadata" json_doc
      ∷ nullable "previous_event_hash" (varchar 64)
      ∷ nullable "event_hash" (varchar 64)
      ∷ [];
  constraints =
      index "ix_audit_event_occurred_at" ("occurred_at" ∷ [])
      ∷ index "ix_audit_event_service_occurred_at" ("service_id" ∷ "occurred_at" ∷ [])
      ∷ index "ix_audit_event_actor_occurred_at" ("actor_type" ∷ "actor_id" ∷ "occurred_at" ∷ [])
      ∷ check_constraint "ck_audit_event_actor_type"
          "actor_type IN ('user', 'api_key', 'system', 'anonymous')"
      ∷ check_constraint "ck_audit_event_result" "result IN ('success', 'denied', 'failed')"
      ∷ [];
}

abbrev pub outbox_model : Table
outbox_model = record {
  name = "outbox";
  columns =
      primary "id" uuid
      ∷ required "event_type" (varchar 64)
      ∷ nullable "service_id" uuid
      ∷ nullable "requested_generation" big_integer
      ∷ nullable "operation_kind" (varchar 64)
      ∷ nullable "payload" json_doc
      ∷ defaulted (default_text "'pending'")
          (required "status" (enum_code ("pending" ∷ "in_flight" ∷ "done" ∷ "failed" ∷ [])))
      ∷ defaulted (default_text "0") (required "attempt_count" integer)
      ∷ nullable "next_attempt_at" utc_ts
      ∷ nullable "last_error" (varchar 2048)
      ∷ required "created_at" utc_ts
      ∷ nullable "processed_at" utc_ts
      ∷ [];
  constraints =
      unique_constraint "uq_outbox_service_generation_operation"
        ("service_id" ∷ "requested_generation" ∷ "operation_kind" ∷ [])
      ∷ check_constraint "ck_outbox_status" "status IN ('pending', 'in_flight', 'done', 'failed')"
      ∷ check_constraint "ck_outbox_attempt_count_non_negative" "attempt_count >= 0"
      ∷ [];
}
