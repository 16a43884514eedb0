-- ===== src/Auth/Lockout.antt =====
-- backend/src/litemcp/auth/lockout.py. `now` is the value of `_now_utc()` in the call.
pub mod Counting
pub mod Gate
pub mod Fresh
mod Tests
use lite_mcp.Base.{
  ℕ, ◌+◌, String, Bool, true, false, Option, none, some, ltb, leb, ◌==◌, if◌then◌else◌,
}
use lite_mcp.Base.Exec.{ok, err, Exec, ◌>>=◌, ◌>>◌, pure, modify}
use lite_mcp.Platform.Time.{Datetime, aware, as_utc, seconds}
use lite_mcp.Config.{Settings}
use lite_mcp.Db.User.{User}
use lite_mcp.Db.Users.{Users}

pub record LoginAttemptDecision : Type 0 where
  pub may_verify_password : Bool
  pub denial_reason : Option String
  pub user : User

-- What `scalar_one` raises.
pub data LockoutError : Type 0 where
  no_result_found : LockoutError

unfoldable pub clear_lockout_state : User → User
clear_lockout_state u = record u {
  status = "active";
  failed_login_count = 0;
  failed_login_window_started_at = none;
  locked_until = none;
}

abbrev later_than : Option Datetime → ℕ → Bool
later_than none now = false
later_than (some t) now = ltb now (as_utc t)

lock_is_still_active : User → ℕ → Bool
lock_is_still_active u now = later_than u.locked_until now

-- The row after `prepare_login_attempt`, and the decision.
unfoldable pub decide_attempt : User → ℕ → LoginAttemptDecision
unfolding lock_is_still_active clear_lockout_state
decide_attempt u now =
    if u.status == "disabled"
    then record { may_verify_password = false; denial_reason = some "disabled"; user = u }
    else if u.status == "locked"
    then (if lock_is_still_active u now
        then record { may_verify_password = false; denial_reason = some "locked"; user = u }
        else record {
          may_verify_password = true;
          denial_reason = none;
          user = clear_lockout_state u;
        })
    else record { may_verify_password = true; denial_reason = none; user = u }

-- `window_started is None or now - window_started >= window`
abbrev window_is_over : Option Datetime → ℕ → ℕ → Bool
window_is_over none window now = true
window_is_over (some t) window now = leb (as_utc t + window) now

count_failure : ℕ → ℕ → User → User
count_failure window now u =
    if window_is_over u.failed_login_window_started_at window now
    then record u { failed_login_count = 1; failed_login_window_started_at = some (aware now) }
    else record u { failed_login_count = u.failed_login_count + 1 }

lock_at_threshold : Settings → ℕ → User → User
lock_at_threshold settings now u =
    if leb settings.admin_login_failure_threshold u.failed_login_count
    then record u {
      status = "locked";
      locked_until = some (aware (now + seconds settings.admin_lock_seconds));
    }
    else u

-- The row after `record_login_failure`.
unfoldable pub fail_attempt : Settings → ℕ → User → User
unfolding count_failure lock_at_threshold
fail_attempt settings now u =
    lock_at_threshold settings now
      (count_failure (seconds settings.admin_login_failure_window_seconds) now u)

module _ (D : Users) where
  open D use {State, get_user, save_user}

  -- `SELECT … FOR UPDATE` and `scalar_one`
  lock_user : ℕ → Exec State LockoutError User
  lock_user i s = elim (get_user s i) [ none ↦ (err no_result_found, s) | some u ↦ (ok u, s) ]

  unfoldable pub prepare_login_attempt : ℕ → ℕ → Exec State LockoutError LoginAttemptDecision
  unfolding lock_user
  prepare_login_attempt i now = do
    user ← lock_user i
    let decision = decide_attempt user now
    modify (λ s. save_user s decision.user)
    pure decision

  unfoldable pub record_login_failure : Settings → ℕ → ℕ → Exec State LockoutError User
  unfolding lock_user
  record_login_failure settings i now = do
    user ← lock_user i
    let failed = fail_attempt settings now user
    modify (λ s. save_user s failed)
    pure failed

  unfoldable pub record_login_success : ℕ → Exec State LockoutError User
  unfolding lock_user
  record_login_success i = do
    user ← lock_user i
    let cleared = clear_lockout_state user
    modify (λ s. save_user s cleared)
    pure cleared
