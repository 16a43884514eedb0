-- ===== src/Db/AuditEvent.antt =====
-- backend/src/litemcp/db/models.py: the table `audit_event`. JSON documents are their text.
use lite_mcp.Base.{ℕ, String, Bool, Option, ◌∷◌, [], ◌&&◌, member}
use lite_mcp.Platform.Time.{Datetime}

pub record AuditEvent : Type 0 where
  pub id : ℕ
  pub occurred_at : Datetime
  pub request_id : String
  pub actor_type : String
  pub actor_id : Option String
  pub action : String
  pub resource_type : String
  pub resource_id : Option String
  pub service_id : Option ℕ
  pub result : String
  pub reason_code : Option String
  pub source_ip : Option String
  pub user_agent : Option String
  pub changes : Option String
  pub meta : Option String
  pub previous_event_hash : Option String
  pub event_hash : Option String

-- ck_audit_event_actor_type and ck_audit_event_result
unfoldable pub check_audit_event : AuditEvent → Bool
check_audit_event e =
    member e.actor_type ("user" ∷ "api_key" ∷ "system" ∷ "anonymous" ∷ [])
    && member e.result ("success" ∷ "denied" ∷ "failed" ∷ [])
