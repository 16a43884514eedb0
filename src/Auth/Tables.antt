-- ===== src/Auth/Tables.antt =====
-- What the authentication writes satisfies the CHECK constraints of its tables.
use lite_mcp.Base.{ℕ, String, true, ◌≡◌, ◌⊎◌, refl, arith, member, is_none, Bool-cases, inl, inr}
use lite_mcp.Platform.Python.{Stdlib, StdlibLaws}
use lite_mcp.Platform.Redis.{Redis, RedisLaws}
use lite_mcp.Config.{Settings}
use lite_mcp.Db.User.{User, check_user}
use lite_mcp.Db.Users.{Users}
use lite_mcp.Db.AuditEvent.{check_audit_event}
use lite_mcp.Auth.Lockout.{decide_attempt, fail_attempt, clear_lockout_state}
use lite_mcp.Auth.Session.{Encode}
use lite_mcp.Auth.Refresh.{RotateDraws, StoredSession}
use lite_mcp.Auth.Refresh.Rotation.{reuse_event}
use lite_mcp.Auth.Logout.{Actor, logout_event}

-- How an operation of the lockout may change the role and the status.
abbrev Moves : User → User → Type 0
Moves u v =
    (v.role ≡ u.role) × ((v.status ≡ u.status) ⊎ ((v.status ≡ "active") ⊎ (v.status ≡ "locked")))

check-Moves : (u v : User) → Moves u v → check_user u ≡ true → check_user v ≡ true
unfolding check_user member
check-Moves u v (r, inl s) ok = rw (r, s) ok
check-Moves u v (r, inr (inl s)) ok = rw (r, s) (ground arith)
check-Moves u v (r, inr (inr s)) ok = rw (r, s) (ground arith)

Moves-decide : (u : User) (now : ℕ) → Moves u (decide_attempt u now).user
unfolding decide_attempt clear_lockout_state
Moves-decide u now = (ground arith, ground arith)

Moves-fail : (settings : Settings) (now : ℕ) (u : User) → Moves u (fail_attempt settings now u)
unfolding fail_attempt
Moves-fail settings now u = (ground arith, ground arith)

Moves-clear : (u : User) → Moves u (clear_lockout_state u)
unfolding clear_lockout_state
Moves-clear u = (refl, inr (inl refl))

-- The rows that the operations of the lockout write pass the constraints of the table `user` where
-- the row they found does.
lockout-checks :
    (u : User) (settings : Settings) (now : ℕ)
    → check_user u ≡ true
    → (check_user (decide_attempt u now).user ≡ true)
      × (check_user (fail_attempt settings now u) ≡ true)
      × (check_user (clear_lockout_state u) ≡ true)
lockout-checks u settings now ok = (
  check-Moves u (decide_attempt u now).user (Moves-decide u now) ok,
  check-Moves u (fail_attempt settings now u) (Moves-fail settings now u) ok,
  check-Moves u (clear_lockout_state u) (Moves-clear u) ok,
)

module _ (py : Stdlib) (pyl : StdlibLaws py) (R : Redis) (laws : RedisLaws R) (encode : Encode)
    (D : Users) (settings : Settings) where
  -- The audit events of a detected replay and of the two logouts pass the constraints of the table
  -- `audit_event`, whoever the actor is.
  events-check :
      (d : RotateDraws) (session_id secret : String) (moment : ℕ) (session : StoredSession)
      (a : Actor) (action resource_id : String)
      → (check_audit_event
            (reuse_event py pyl R laws encode D settings d session_id secret moment session)
          ≡ true)
        × (check_audit_event (logout_event py a action resource_id) ≡ true)
  unfolding check_audit_event logout_event member
  events-check d session_id secret moment session a action resource_id = (
    elim (Bool-cases (is_none (py.uuid_parse session.user_id_raw))) [
      | inl e ↦ rw e refl
      | inr e ↦ rw e refl
    ],
    refl,
  )
