-- ===== src/Db/BuildRun.antt =====
-- backend/src/litemcp/db/models.py: the table `build_run`. JSON documents are their text,
-- and a `Numeric(10, 2)` is a number of hundredths.
use lite_mcp.Base.{String, ℕ, Bool, Option, member, ◌&&◌, [], ◌∷◌}
use lite_mcp.Base.Integer.{ℤ}
use lite_mcp.Platform.Time.{Datetime}

pub record BuildRun : Type 0 where
  pub id : ℕ
  pub service_id : ℕ
  pub config_revision_id : ℕ
  pub source_artifact_id : ℕ
  pub strategy : String
  pub parser_version : String
  pub base_image_digest : String
  pub dependency_digest : Option String
  pub status : String
  pub output_artifact_id : Option ℕ
  pub discovered_descriptor : Option String
  pub error_code : Option String
  pub error_summary : Option String
  pub log_artifact_id : Option ℕ
  pub started_at : Option Datetime
  pub finished_at : Option Datetime
  pub created_at : Datetime
  pub created_by : String
  pub updated_at : Datetime
  pub updated_by : String
  pub row_version : ℤ

-- The CHECK constraints of the table.
unfoldable pub check_build_run : BuildRun → Bool
check_build_run b =
    member b.strategy ("fastmcp" ∷ "descriptor" ∷ "custom_adapter" ∷ [])
    && member b.status (
        "queued" ∷ "building" ∷ "validating" ∷ "succeeded" ∷ "failed" ∷ "cancelled" ∷ "superseded"
        ∷ [])
