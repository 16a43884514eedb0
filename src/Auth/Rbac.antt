-- ===== src/Auth/Rbac.antt =====
-- backend/src/litemcp/auth/rbac.py: global roles. What the functions accept and ignore (JWT claims,
-- team and service roles, the target of `authorize_enable_user`) is left out of their arguments.
pub mod LastAdmin
mod Tests
use lite_mcp.Base.{
  String, Bool, true, false, Option, none, some, List, [], ◌∷◌, ◌&&◌, ◌||◌, not, is_nil, ◌==◌,
  if◌then◌else◌,
}
use lite_mcp.Base.Exec.{Result, ok, err}

-- AuthorizationDenied and LastActiveAdminError
pub data RbacError : Type 0 where
  authorization_denied last_active_admin : RbacError

pub data Capability : Type 0 where
  create_user disable_user enable_user change_global_role view_global_audit : Capability

-- A capability as callers pass it: any object.
pub data Requested : Type 0 where
  cap : Capability → Requested
  str : String → Requested
  other : Requested

pub record CurrentUser : Type 0 where
  pub id : String
  pub role : String
  pub status : String

pub current_user_from_db : String → String → String → CurrentUser
current_user_from_db user_id role status = record { id = user_id; role = role; status = status }

-- `Capability(value)`, `none` where it raises
parse_capability : String → Option Capability
parse_capability s =
    if s == "create_user"
    then some create_user
    else if s == "disable_user"
    then some disable_user
    else if s == "enable_user"
    then some enable_user
    else if s == "change_global_role"
    then some change_global_role
    else if s == "view_global_audit"
    then some view_global_audit
    else none

pub as_capability : Requested → Option Capability
unfolding parse_capability
as_capability (cap c) = some c
as_capability (str s) = parse_capability s
as_capability other = none

abbrev pub is_active_admin : String → String → Bool
is_active_admin role status = status == "active" && role == "admin"

-- Every capability is in `_ADMIN_CAPABILITIES`.
in_admin_capabilities : Capability → Bool
in_admin_capabilities create_user = true
in_admin_capabilities disable_user = true
in_admin_capabilities enable_user = true
in_admin_capabilities change_global_role = true
in_admin_capabilities view_global_audit = true

abbrev holds : CurrentUser → Option Capability → Bool
holds actor none = false
holds actor (some c) =
    if not (actor.status == "active") || not (actor.role == "admin")
    then false
    else in_admin_capabilities c

pub has_capability : CurrentUser → Requested → Bool
unfolding as_capability in_admin_capabilities
has_capability actor requested = holds actor (as_capability requested)

pub authorize : CurrentUser → Requested → Result RbacError (Unit {0})
authorize actor requested =
    if has_capability actor requested then ok tt else err authorization_denied

-- `{a for a in active_admin_ids if a != target_id}`
others : String → List String → List String
others target [] = []
others target (a ∷ ids) = let rest = others target ids in if a == target then rest else a ∷ rest

pub would_remove_last_active_admin : String → String → String → List String → Bool
would_remove_last_active_admin target role status active_admin_ids =
    if not (role == "admin") || not (status == "active")
    then false
    else is_nil (others target active_admin_ids)

abbrev unless_last : Bool → Result RbacError (Unit {0})
unless_last last = if last then err last_active_admin else ok tt

abbrev after :
    Result RbacError (Unit {0}) → Result RbacError (Unit {0}) → Result RbacError (Unit {0})
after (ok _) next = next
after (err e) next = err e

-- The arguments behind the actor are the target's id, role and status, and the active admins.
pub authorize_disable_user :
    CurrentUser → String → String → String → List String → Result RbacError (Unit {0})
authorize_disable_user actor target role status active_admin_ids =
    after (authorize actor (cap disable_user))
      (unless_last (would_remove_last_active_admin target role status active_admin_ids))

pub authorize_enable_user : CurrentUser → Result RbacError (Unit {0})
authorize_enable_user actor = authorize actor (cap enable_user)

-- The argument behind the target's status is the new role.
pub authorize_change_global_role :
    CurrentUser → String → String → String → String → List String → Result RbacError (Unit {0})
authorize_change_global_role actor target role status new_role active_admin_ids =
    after (authorize actor (cap change_global_role)) (
      if new_role == "admin"
      then ok tt
      else unless_last (would_remove_last_active_admin target role status active_admin_ids))
