-- ===== src/Auth/ServiceRbac.antt =====
-- backend/src/litemcp/auth/service_rbac.py: authorization of actions on a service. The argument
-- `token_claims`, which the source accepts and drops, is left out.
pub mod Grants
mod Tests
use lite_mcp.Base.{
  String, Bool, true, false, Option, none, some, List, [], ◌∷◌, ◌&&◌, ◌||◌, not, member, is_text,
  ◌==◌, if◌then◌else◌,
}

-- ALLOWED, FORBIDDEN and NOT_FOUND
pub data Verdict : Type 0 where
  allowed forbidden not_found : Verdict

pub record Principal : Type 0 where
  pub id : String
  pub role : String
  pub status : String
  pub team_ids : List String

pub record Grant : Type 0 where
  pub service_id : String
  pub principal_type : String
  pub role : String
  pub user_id : Option String
  pub team_id : Option String

abbrev pub viewer_actions : List String
viewer_actions = "view_service" ∷ "view_api_key_metadata" ∷ "view_service_audit_summary" ∷ []

abbrev pub editor_actions : List String
editor_actions =
    "view_full_build_logs" ∷ "mutate_config_revision" ∷ "trigger_build_sync_publish_rollback"
    ∷ "manage_api_keys" ∷ "mutate_service_permissions" ∷ "mutate_service_lifecycle" ∷ []

pub is_active_admin : Principal → Bool
is_active_admin p = p.status == "active" && p.role == "admin"

-- `grant.team_id is not None and grant.team_id in team_ids`
abbrev pub in_teams : Option String → List String → Bool
in_teams none team_ids = false
in_teams (some t) team_ids = member t team_ids

-- What a round of the loop of `_visible` finds for a grant of the service.
pub shows : Principal → Grant → Bool
shows p g =
    g.principal_type == "everyone"
    || g.principal_type == "user" && is_text g.user_id p.id
    || g.principal_type == "team" && in_teams g.team_id p.team_ids

visible_by : Principal → String → List Grant → Bool
visible_by p service_id [] = false
visible_by p service_id (g ∷ grants) =
    let rest = visible_by p service_id grants in
    if not (g.service_id == service_id) then rest else if shows p g then true else rest

pub visible : Principal → List Grant → String → Bool
visible p grants service_id = if is_active_admin p then true else visible_by p service_id grants

-- What a round of the loop of `_writable` finds for a grant of the service.
pub edits : Principal → Grant → Bool
edits p g = g.principal_type == "user" && is_text g.user_id p.id && g.role == "editor"

writable_by : Principal → String → List Grant → Bool
writable_by p service_id [] = false
writable_by p service_id (g ∷ grants) =
    let rest = writable_by p service_id grants in
    if not (g.service_id == service_id) then rest else if edits p g then true else rest

pub writable : Principal → List Grant → String → Bool
writable p grants service_id = if is_active_admin p then true else writable_by p service_id grants

pub authorize_service_action : Principal → String → String → List Grant → Verdict
authorize_service_action p service_id action grants =
    if not (visible p grants service_id)
    then not_found
    else if not (p.status == "active")
    then forbidden
    else if member action viewer_actions
    then allowed
    else if member action editor_actions && writable p grants service_id
    then allowed
    else forbidden
