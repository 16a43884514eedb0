-- ===== src/Db/ServiceConfigRevision.antt =====
-- backend/src/litemcp/db/models.py: the table `service_config_revision`. JSON documents are their text,
-- and a `Numeric(10, 2)` is a number of hundredths.
use lite_mcp.Base.{String, ℕ, Bool, Option, member, ◌&&◌, [], ◌∷◌}
use lite_mcp.Base.Integer.{ℤ}
use lite_mcp.Platform.Time.{Datetime}

pub record ServiceConfigRevision : Type 0 where
  pub id : ℕ
  pub service_id : ℕ
  pub generation : ℤ
  pub schema_version : ℤ
  pub config_kind : String
  pub public_config : String
  pub secret_blob_id : Option ℕ
  pub source_descriptor : Option String
  pub source_mode : String
  pub config_digest : String
  pub state : String
  pub validation_report : Option String
  pub activated_at : Option Datetime
  pub superseded_at : Option Datetime
  pub created_at : Datetime
  pub created_by : String

-- The CHECK constraints of the table.
unfoldable pub check_service_config_revision : ServiceConfigRevision → Bool
check_service_config_revision r =
    member r.config_kind ("http_api" ∷ "stdio" ∷ "mcp_http" ∷ [])
    && member r.source_mode ("fastmcp_introspection" ∷ "descriptor" ∷ "manual" ∷ "remote_sync" ∷ [])
    && member r.state
        ("draft" ∷ "validating" ∷ "validated" ∷ "active" ∷ "rejected" ∷ "superseded" ∷ [])
