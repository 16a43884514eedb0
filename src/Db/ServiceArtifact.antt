-- ===== src/Db/ServiceArtifact.antt =====
-- backend/src/litemcp/db/models.py: the table `service_artifact`. JSON documents are their text,
-- and a `Numeric(10, 2)` is a number of hundredths.
use lite_mcp.Base.{String, ℕ, Bool, Option, member, ◌&&◌, [], ◌∷◌}
use lite_mcp.Base.Integer.{ℤ, pos, leb}
use lite_mcp.Platform.Time.{Datetime}

pub record ServiceArtifact : Type 0 where
  pub id : ℕ
  pub service_id : ℕ
  pub config_revision_id : Option ℕ
  pub kind : String
  pub storage_backend : String
  pub object_key : String
  pub sha256 : String
  pub size_bytes : ℤ
  pub media_type : String
  pub format : String
  pub state : String
  pub scan_report : Option String
  pub retain_until : Option Datetime
  pub created_at : Datetime
  pub created_by : String
  pub updated_at : Datetime
  pub updated_by : String
  pub row_version : ℤ

-- The CHECK constraints of the table.
unfoldable pub check_service_artifact : ServiceArtifact → Bool
check_service_artifact a =
    member a.kind
      ("source_package" ∷ "descriptor" ∷ "build_bundle" ∷ "container_image" ∷ "build_log" ∷ [])
    && member a.storage_backend ("filesystem" ∷ "s3" ∷ "minio" ∷ "registry" ∷ [])
    && member a.state ("staging" ∷ "available" ∷ "quarantined" ∷ "gc_pending" ∷ "deleted" ∷ [])
    && leb (pos 0) a.size_bytes
