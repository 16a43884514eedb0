-- ===== src/Auth/Rbac/Tests.antt =====
-- The theorems on global roles at concrete accounts.
use lite_mcp.Base.{[], ◌∷◌, ◌≡◌, refl, arith}
use lite_mcp.Base.Exec.{ok}
use lite_mcp.Auth.Rbac.{
  CurrentUser, has_capability, authorize, would_remove_last_active_admin, authorize_disable_user,
  others,
}
use lite_mcp.Auth.Rbac.LastAdmin.{
  Accounts, HasAdmin, active_admin_ids, active_among, here, next, disable, update, Reach-HasAdmin,
}

abbrev root : CurrentUser
root = record { id = "a"; role = "admin"; status = "active" }

-- Two admins, of whom one disables the other.
abbrev two_admins : Accounts
two_admins = record { ids = "a" ∷ "b" ∷ []; role = λ i. "admin"; status = λ i. "active" }

abbrev one_admin : Accounts
one_admin = record two_admins { status = update "b" "disabled" two_admins.status }

may_disable : authorize_disable_user root "b" "admin" "active" (active_admin_ids two_admins) ≡ ok tt
unfolding authorize_disable_user authorize has_capability would_remove_last_active_admin others
    active_admin_ids active_among
may_disable = refl

two_admins-HasAdmin : HasAdmin two_admins
unfolding active_admin_ids active_among
two_admins-HasAdmin = ground arith

Reach-HasAdmin_example : HasAdmin one_admin
Reach-HasAdmin_example =
    Reach-HasAdmin {a = two_admins} {b = one_admin} (next here (disable root "b" may_disable))
      two_admins-HasAdmin
