-- ===== src/Migrations/Revisions/ArtifactBuild.antt =====
-- backend/migrations/versions/m1_model_005_artifact_build.py
use lite_mcp.Base.{List, [], ◌∷◌, ◌++◌}
use lite_mcp.Migrations.{
  Table, Op, uuid, utc_ts, json_doc, enum_code, varchar, varchar_latin1, big_integer,
  unique_constraint, index, check_constraint, foreign_key, create_table, drop_table,
}
use lite_mcp.Migrations.Columns.{required, nullable, primary, audit_columns}

abbrev pub service_artifact_table : Table
service_artifact_table = record {
  name = "service_artifact";
  columns =
      (primary "id" uuid
        ∷ required "service_id" uuid
        ∷ nullable "config_revision_id" uuid
        ∷ required "kind" (
            enum_code (
              "source_package" ∷ "descriptor" ∷ "build_bundle" ∷ "container_image" ∷ "build_log"
              ∷ []))
        ∷ required "storage_backend" (enum_code ("filesystem" ∷ "s3" ∷ "minio" ∷ "registry" ∷ []))
        ∷ required "object_key" (varchar_latin1 1024)
        ∷ required "sha256" (varchar 64)
        ∷ required "size_bytes" big_integer
        ∷ required "media_type" (varchar 128)
        ∷ required "format" (varchar 32)
        ∷ required "state"
            (enum_code ("staging" ∷ "available" ∷ "quarantined" ∷ "gc_pending" ∷ "deleted" ∷ []))
        ∷ nullable "scan_report" json_doc
        ∷ nullable "retain_until" utc_ts
        ∷ [])
      ++ audit_columns;
  constraints =
      foreign_key "" ("service_id" ∷ []) "mcp_service" ("id" ∷ []) "RESTRICT"
      ∷ foreign_key "" ("config_revision_id" ∷ []) "service_config_revision" ("id" ∷ []) ""
      ∷ check_constraint "ck_service_artifact_kind"
          "kind IN ('source_package', 'descriptor', 'build_bundle', 'container_image', 'build_log')"
      ∷ check_constraint "ck_service_artifact_storage_backend"
          "storage_backend IN ('filesystem', 's3', 'minio', 'registry')"
      ∷ check_constraint "ck_service_artifact_size_bytes_non_negative" "size_bytes >= 0"
      ∷ check_constraint "ck_service_artifact_state"
          "state IN ('staging', 'available', 'quarantined', 'gc_pending', 'deleted')"
      ∷ unique_constraint "uq_service_artifact_storage_object_key"
          ("storage_backend" ∷ "object_key" ∷ [])
      ∷ [];
}

abbrev pub build_run_table : Table
build_run_table = record {
  name = "build_run";
  columns =
      (primary "id" uuid
        ∷ required "service_id" uuid
        ∷ required "config_revision_id" uuid
        ∷ required "source_artifact_id" uuid
        ∷ required "strategy" (enum_code ("fastmcp" ∷ "descriptor" ∷ "custom_adapter" ∷ []))
        ∷ required "parser_version" (varchar 64)
        ∷ required "base_image_digest" (varchar 255)
        ∷ nullable "dependency_digest" (varchar 64)
        ∷ required "status" (
            enum_code (
              "queued" ∷ "building" ∷ "validating" ∷ "succeeded" ∷ "failed" ∷ "cancelled"
              ∷ "superseded" ∷ []))
        ∷ nullable "output_artifact_id" uuid
        ∷ nullable "discovered_descriptor" json_doc
        ∷ nullable "error_code" (varchar 64)
        ∷ nullable "error_summary" (varchar 2048)
        ∷ nullable "log_artifact_id" uuid
        ∷ nullable "started_at" utc_ts
        ∷ nullable "finished_at" utc_ts
        ∷ [])
      ++ audit_columns;
  constraints =
      foreign_key "" ("service_id" ∷ []) "mcp_service" ("id" ∷ []) "RESTRICT"
      ∷ foreign_key "" ("config_revision_id" ∷ []) "service_config_revision" ("id" ∷ []) ""
      ∷ foreign_key "" ("source_artifact_id" ∷ []) "service_artifact" ("id" ∷ []) ""
      ∷ check_constraint "ck_build_run_strategy"
          "strategy IN ('fastmcp', 'descriptor', 'custom_adapter')"
      ∷ check_constraint "ck_build_run_status"
          "status IN ('queued', 'building', 'validating', 'succeeded', 'failed', 'cancelled', 'superseded')"
      ∷ foreign_key "" ("output_artifact_id" ∷ []) "service_artifact" ("id" ∷ []) ""
      ∷ foreign_key "" ("log_artifact_id" ∷ []) "service_artifact" ("id" ∷ []) ""
      ∷ index "ix_build_run_service_status_created_at" ("service_id" ∷ "status" ∷ "created_at" ∷ [])
      ∷ [];
}

abbrev pub upgrade_artifact_build : List Op
upgrade_artifact_build = create_table service_artifact_table ∷ create_table build_run_table ∷ []

abbrev pub downgrade_artifact_build : List Op
downgrade_artifact_build = drop_table "build_run" ∷ drop_table "service_artifact" ∷ []
