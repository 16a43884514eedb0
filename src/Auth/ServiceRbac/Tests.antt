-- ===== src/Auth/ServiceRbac/Tests.antt =====
-- The theorems on grants at a concrete service.
use lite_mcp.Base.{none, some, true, [], ◌∷◌, ◌≡◌, ◌↔◌, ◌⊎◌, refl, member}
use lite_mcp.Auth.ServiceRbac.{
  Principal, Grant, allowed, not_found, viewer_actions, editor_actions, authorize_service_action,
  is_active_admin, visible, visible_by, writable, writable_by, shows, edits,
}
use lite_mcp.Auth.ServiceRbac.Grants.{CanSee, CanWrite, authorize_service_action_iff}

abbrev bob : Principal
bob = record { id = "b"; role = "user"; status = "active"; team_ids = "t" ∷ [] }

abbrev editor : Grant
editor = record {
  service_id = "s";
  principal_type = "user";
  role = "editor";
  user_id = some "b";
  team_id = none;
}

may_build :
    authorize_service_action bob "s" "trigger_build_sync_publish_rollback" (editor ∷ []) ≡ allowed
unfolding authorize_service_action is_active_admin visible visible_by writable writable_by shows
    edits member
may_build = refl

authorize_service_action_iff_example :
    ((authorize_service_action bob "s" "view_service" (editor ∷ []) ≡ not_found)
      ↔ ¬ CanSee bob "s" (editor ∷ []))
    × ((authorize_service_action bob "s" "view_service" (editor ∷ []) ≡ allowed) ↔ (
        CanSee bob "s" (editor ∷ [])
        × (bob.status ≡ "active")
        × ((member "view_service" viewer_actions ≡ true)
            ⊎ ((member "view_service" editor_actions ≡ true) × CanWrite bob "s" (editor ∷ [])))))
authorize_service_action_iff_example =
    authorize_service_action_iff bob "s" "view_service" (editor ∷ [])
