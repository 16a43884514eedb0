-- ===== src/Auth/Lockout/Gate.antt =====
-- Which accounts may have a password verified, and what the end of a lock does.
use lite_mcp.Base.{ℕ, ◌+◌, ◌<◌, ◌≤◌, ◌≡◌, ◌≢◌, ap, Option, some, none, true, false, arith, eq_iff}
use lite_mcp.Base.Exec.{ok}
use lite_mcp.Platform.Time.{Datetime, as_utc, seconds}
use lite_mcp.Config.{Settings}
use lite_mcp.Db.User.{User}
use lite_mcp.Db.Users.{Users}
use lite_mcp.Auth.Lockout.Counting.{record_one}
use lite_mcp.Auth.Lockout.{
  record_login_failure, LoginAttemptDecision, decide_attempt, fail_attempt, prepare_login_attempt,
  lock_user,
}

-- A lock time that has passed, or was never set.
abbrev pub HasEnded : Option Datetime → ℕ → Type 0
HasEnded none now = Unit
HasEnded (some t) now = as_utc t ≤ now

-- A lock time that is still to come.
abbrev pub IsHeld : Option Datetime → ℕ → Type 0
IsHeld none now = ⊥
IsHeld (some t) now = now < as_utc t

abbrev pub IsUnlocked : User → Type 0
IsUnlocked u =
    (u.status ≡ "active")
    × (u.failed_login_count ≡ 0)
    × (u.failed_login_window_started_at ≡ none)
    × (u.locked_until ≡ none)

-- What the decision on a row promises.
pub record Decided (u : User) (now : ℕ) (d : LoginAttemptDecision) : Type 0 where
  pub disabled : u.status ≡ "disabled" → (d.denial_reason ≡ some "disabled") × (d.user ≡ u)
  pub locked :
      u.status ≡ "locked"
      → IsHeld u.locked_until now
      → (d.denial_reason ≡ some "locked") × (d.user ≡ u)
  pub ended :
      u.status ≡ "locked"
      → HasEnded u.locked_until now
      → (d.denial_reason ≡ none) × IsUnlocked d.user
  pub other : u.status ≢ "disabled" → u.status ≢ "locked" → (d.denial_reason ≡ none) × (d.user ≡ u)
  pub allows : d.denial_reason ≡ none → d.may_verify_password ≡ true
  pub denies : d.may_verify_password ≡ true → d.denial_reason ≡ none

module _ (u : User) (now : ℕ) where
  Decided-decide : Decided u now (decide_attempt u now)
  unfolding decide_attempt
  Decided-decide = record {
    disabled = λ e. ground (arith, eq_iff u.status "disabled");
    locked = λ e h.
        ground
          (arith, eq_iff u.status "disabled", eq_iff u.status "locked", eq_iff "locked" "disabled");
    ended = λ e h.
        ground
          (arith, eq_iff u.status "disabled", eq_iff u.status "locked", eq_iff "locked" "disabled");
    other = λ a b. ground (arith, eq_iff u.status "disabled", eq_iff u.status "locked");
    allows = λ e. ground arith;
    denies = λ e. ground arith;
  }

-- The lock that a failure sets on a disabled row ends after the lock time.
until-fail :
    (settings : Settings) (u : User) (now later : ℕ)
    → u.status ≡ "disabled"
    → (fail_attempt settings now u).status ≡ "locked"
    → now + seconds settings.admin_lock_seconds ≤ later
    → HasEnded (fail_attempt settings now u).locked_until later
unfolding fail_attempt
until-fail settings u now later h l w = ground (arith, eq_iff "disabled" "locked")

id-decide : (u : User) (now : ℕ) → (decide_attempt u now).user.id ≡ u.id
unfolding decide_attempt
id-decide u now = ground arith

decide-disabled :
    (u : User) (now : ℕ)
    → u.status ≡ "disabled"
    → decide_attempt u now
      ≡ record { may_verify_password = false; denial_reason = some "disabled"; user = u }
unfolding decide_attempt
decide-disabled u now h = ground (arith, eq_iff u.status "disabled")

module _ (D : Users) where
  open D use {State, get_user, save_user, get-save, id-get}

  save_same :
      (s : State) (i j : ℕ) (u : User)
      → get_user s i ≡ some u
      → get_user (save_user s u) j ≡ get_user s j
  save_same s i j u e = ground (arith, get-save s u j, id-get s i u e, ap (get_user s))

  stored :
      (i now : ℕ) (s : State) (u : User)
      → get_user s i ≡ some u
      → get_user (prepare_login_attempt D i now s).1 i ≡ some (decide_attempt u now).user
  unfolding prepare_login_attempt
  stored i now s u e =
      rw (e, lock_user)
        (ground (arith, get-save s (decide_attempt u now).user i, id-decide u now, id-get s i u e))

  -- On an account that exists, `prepare_login_attempt` returns the decision that its row asks for:
  -- `disabled` and a lock that still holds deny and change no row, a lock that has ended is cleared
  -- before the password is looked at, and any other row is let through as it is. The row that it
  -- returns is the row that is stored.
  pub prepare_decides :
      (i now : ℕ) (s : State) (u : User)
      → get_user s i ≡ some u
      → (d : LoginAttemptDecision) × ((prepare_login_attempt D i now s).0 ≡ ok d)
        × Decided u now d
        × (get_user (prepare_login_attempt D i now s).1 i ≡ some d.user)
  unfolding prepare_login_attempt
  prepare_decides i now s u e =
      (decide_attempt u now, rw (e, lock_user), Decided-decide u now, stored i now s u e)

  -- A disabled account is never let through, and no row changes.
  prepare-disabled :
      (i now : ℕ) (s : State) (u : User)
      → get_user s i ≡ some u
      → u.status ≡ "disabled"
      → ((prepare_login_attempt D i now s).0
          ≡ ok (record { may_verify_password = false; denial_reason = some "disabled"; user = u }))
        × ((j : ℕ) → get_user (prepare_login_attempt D i now s).1 j ≡ get_user s j)
  unfolding prepare_login_attempt
  prepare-disabled i now s u e h = (
    rw (e, lock_user) (ap ok (decide-disabled u now h)),
    λ j. rw (e, lock_user) (rw (decide-disabled u now h) (save_same s i j u e)),
  )

  -- A failure recorded for a disabled account that locks it, with no attempt prepared in between,
  -- makes the account active again: the next attempt at or after the end of the lock may verify a
  -- password, and the row that it stores is `active` with its failures cleared.
  pub disabled_reactivated :
      (settings : Settings) (i now later : ℕ) (s : State) (u : User)
      → get_user s i ≡ some u
      → u.status ≡ "disabled"
      → (fail_attempt settings now u).status ≡ "locked"
      → now + seconds settings.admin_lock_seconds ≤ later
      → (d : LoginAttemptDecision) × ((prepare_login_attempt D i later
            (record_login_failure D settings i now s).1).0
          ≡ ok d)
        × (d.may_verify_password ≡ true)
        × (get_user
              (prepare_login_attempt D i later (record_login_failure D settings i now s).1).1
              i
            ≡ some d.user)
        × IsUnlocked d.user
  disabled_reactivated settings i now later s u e h l w =
      let (d, decided, promise, kept) =
        prepare_decides i later (record_login_failure D settings i now s).1
          (fail_attempt settings now u) (record_one D settings i now s u e) in
      let (reason, clear) = promise.ended l (until-fail settings u now later h l w) in
      (d, decided, promise.allows reason, kept, clear)
