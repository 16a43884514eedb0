-- ===== src/Migrations/Models/Artifacts.antt =====
-- backend/src/litemcp/db/models.py: the tables service_artifact and build_run.
use lite_mcp.Base.{[], ◌∷◌, ◌++◌}
use lite_mcp.Migrations.{
  Table, uuid, utc_ts, json_doc, enum_code, varchar, big_integer, unique_constraint, index,
  check_constraint, foreign_key,
}
use lite_mcp.Migrations.Columns.{required, nullable, primary, audit_columns}

abbrev pub service_artifact_model : Table
service_artifact_model = record {
  name = "service_artifact";
  columns =
      (primary "id" uuid
        ∷ required "service_id" uuid
        ∷ nullable "config_revision_id" uuid
        ∷ required "kind" (
            enum_code (
              "source_package" ∷ "descriptor" ∷ "build_bundle" ∷ "container_image" ∷ "build_log"
              ∷ []))
        ∷ required "storage_backend" (enum_code ("filesystem" ∷ "s3" ∷ "minio" ∷ "registry" ∷ []))
        ∷ required "object_key" (varchar 1024)
        ∷ required "sha256" (varchar 64)
        ∷ required "size_bytes" big_integer
        ∷ required "media_type" (varchar 128)
        ∷ required "format" (varchar 32)
        ∷ required "state"
            (enum_code ("staging" ∷ "available" ∷ "quarantined" ∷ "gc_pending" ∷ "deleted" ∷ []))
        ∷ nullable "scan_report" json_doc
        ∷ nullable "retain_until" utc_ts
        ∷ [])
      ++ audit_columns;
  constraints =
      foreign_key "" ("service_id" ∷ []) "mcp_service" ("id" ∷ []) "RESTRICT"
      ∷ foreign_key "" ("config_revision_id" ∷ []) "service_config_revision" ("id" ∷ []) ""
      ∷ unique_constraint "uq_service_artifact_storage_object_key"
          ("storage_backend" ∷ "object_key" ∷ [])
      ∷ check_constraint "ck_service_artifact_kind"
          "kind IN ('source_package', 'descriptor', 'build_bundle', 'container_image', 'build_log')"
      ∷ check_constraint "ck_service_artifact_storage_backend"
          "storage_backend IN ('filesystem', 's3', 'minio', 'registry')"
      ∷ check_constraint "ck_service_artifact_state"
          "state IN ('staging', 'available', 'quarantined', 'gc_pending', 'deleted')"
      ∷ check_constraint "ck_service_artifact_size_bytes_non_negative" "size_bytes >= 0"
      ∷ [];
}

abbrev pub build_run_model : Table
build_run_model = record {
  name = "build_run";
  columns =
      (primary "id" uuid
        ∷ required "service_id" uuid
        ∷ required "config_revision_id" uuid
        ∷ required "source_artifact_id" uuid
        ∷ required "strategy" (enum_code ("fastmcp" ∷ "descriptor" ∷ "custom_adapter" ∷ []))
        ∷ required "parser_version" (varchar 64)
        ∷ required "base_image_digest" (varchar 255)
        ∷ nullable "dependency_digest" (varchar 64)
        ∷ required "status" (
            enum_code (
              "queued" ∷ "building" ∷ "validating" ∷ "succeeded" ∷ "failed" ∷ "cancelled"
              ∷ "superseded" ∷ []))
        ∷ nullable "output_artifact_id" uuid
        ∷ nullable "discovered_descriptor" json_doc
        ∷ nullable "error_code" (varchar 64)
        ∷ nullable "error_summary" (varchar 2048)
        ∷ nullable "log_artifact_id" uuid
        ∷ nullable "started_at" utc_ts
        ∷ nullable "finished_at" utc_ts
        ∷ [])
      ++ audit_columns;
  constraints =
      foreign_key "" ("service_id" ∷ []) "mcp_service" ("id" ∷ []) "RESTRICT"
      ∷ foreign_key "" ("config_revision_id" ∷ []) "service_config_revision" ("id" ∷ []) ""
      ∷ foreign_key "" ("source_artifact_id" ∷ []) "service_artifact" ("id" ∷ []) ""
      ∷ foreign_key "" ("output_artifact_id" ∷ []) "service_artifact" ("id" ∷ []) ""
      ∷ foreign_key "" ("log_artifact_id" ∷ []) "service_artifact" ("id" ∷ []) ""
      ∷ index "ix_build_run_service_status_created_at" ("service_id" ∷ "status" ∷ "created_at" ∷ [])
      ∷ check_constraint "ck_build_run_strategy"
          "strategy IN ('fastmcp', 'descriptor', 'custom_adapter')"
      ∷ check_constraint "ck_build_run_status"
          "status IN ('queued', 'building', 'validating', 'succeeded', 'failed', 'cancelled', 'superseded')"
      ∷ [];
}
