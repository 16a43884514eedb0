-- ===== src/Db/ApiKey.antt =====
-- backend/src/litemcp/db/models.py: the table `api_key`. JSON documents are their text,
-- and a `Numeric(10, 2)` is a number of hundredths.
use lite_mcp.Base.{String, ℕ, Bool, Option, member, ◌&&◌, ◌||◌, ◌==◌, not, is_none, [], ◌∷◌, ltb}
use lite_mcp.Base.Integer.{ℤ, pos, leb}
use lite_mcp.Base.Maybe.{null_or}
use lite_mcp.Platform.Time.{Datetime, as_utc}

pub record ApiKey : Type 0 where
  pub id : ℕ
  pub service_id : ℕ
  pub public_id : String
  pub display_prefix : String
  pub secret_hash : String
  pub hash_algorithm : String
  pub pepper_version : Option String
  pub name : String
  pub status : String
  pub expires_at : Option Datetime
  pub last_used_at : Option Datetime
  pub last_used_ip_hash : Option String
  pub revoked_at : Option Datetime
  pub revoked_by : Option ℕ
  pub rate_limit_qps : Option ℤ
  pub rate_limit_burst : Option ℤ
  pub created_at : Datetime
  pub created_by : String
  pub updated_at : Datetime
  pub updated_by : String
  pub row_version : ℤ

-- The CHECK constraints of the table.
unfoldable pub check_api_key : ApiKey → Bool
check_api_key k =
    member k.status ("active" ∷ "revoked" ∷ [])
    && null_or (λ t. ltb (as_utc k.created_at) (as_utc t)) k.expires_at
    && (not (k.status == "revoked") || not (is_none k.revoked_at))
    && null_or (leb (pos 1)) k.rate_limit_qps
    && null_or (leb (pos 1)) k.rate_limit_burst
