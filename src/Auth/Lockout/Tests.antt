-- ===== src/Auth/Lockout/Tests.antt =====
-- Runs of the lockout, and its theorems at a concrete table.
use lite_mcp.Base.{some, true, [], ◌∷◌, ◌≡◌, refl, arith}
use lite_mcp.Base.Exec.{ok}
use lite_mcp.Platform.Time.{aware}
use lite_mcp.Platform.Memory.Rows.{memory_users}
use lite_mcp.Platform.Memory.Sample.{sample_settings, account, ann}
use lite_mcp.Db.User.{User}
use lite_mcp.Auth.Lockout.{
  LoginAttemptDecision, fail_attempt, prepare_login_attempt, record_login_failure,
}
use lite_mcp.Auth.Lockout.Counting.{Counted, record_all, failures_lock}
use lite_mcp.Auth.Lockout.Gate.{Decided, IsUnlocked, prepare_decides, disabled_reactivated}

abbrev off : User
off = record (account 7 "disabled") {
  failed_login_count = 1;
  failed_login_window_started_at = some (aware 0);
}

failures_lock_example :
    (v : User) × (memory_users.get_user
        (record_all memory_users sample_settings 7 (5 ∷ 6 ∷ []) (ann ∷ []))
        7
      ≡ some v)
    × Counted sample_settings 5 ann 2 6 v
failures_lock_example =
    failures_lock memory_users sample_settings 7 5 (6 ∷ []) (ann ∷ []) ann refl refl (omega arith)

prepare_decides_example :
    (d : LoginAttemptDecision) × ((prepare_login_attempt memory_users 7 5 (off ∷ [])).0 ≡ ok d)
    × Decided off 5 d
    × (memory_users.get_user (prepare_login_attempt memory_users 7 5 (off ∷ [])).1 7 ≡ some d.user)
prepare_decides_example = prepare_decides memory_users 7 5 (off ∷ []) off refl

fail_locks : (fail_attempt sample_settings 9 off).status ≡ "locked"
unfolding fail_attempt
fail_locks = refl

disabled_reactivated_example :
    (d : LoginAttemptDecision) × ((prepare_login_attempt memory_users 7 900000009
        (record_login_failure memory_users sample_settings 7 9 (off ∷ [])).1).0
      ≡ ok d)
    × (d.may_verify_password ≡ true)
    × (memory_users.get_user
          (prepare_login_attempt memory_users 7 900000009
            (record_login_failure memory_users sample_settings 7 9 (off ∷ [])).1).1
          7
        ≡ some d.user)
    × IsUnlocked d.user
disabled_reactivated_example =
    disabled_reactivated memory_users sample_settings 7 9 900000009 (off ∷ []) off refl refl
      fail_locks (omega arith)
