-- ===== src/Auth/Lockout/Fresh.antt =====
-- A success forgets the failures before it.
use lite_mcp.Base.{ℕ, ◌≡◌, refl, some, none, List, ◌∷◌, All, length, arith}
use lite_mcp.Config.{Settings}
use lite_mcp.Db.User.{User}
use lite_mcp.Db.Users.{Users}
use lite_mcp.Auth.Lockout.{clear_lockout_state, record_login_success, lock_user}
use lite_mcp.Auth.Lockout.Counting.{IsInside, Counted, record_all, last, failures_lock}

id-clear : (u : User) → (clear_lockout_state u).id ≡ u.id
unfolding clear_lockout_state
id-clear u = refl

window-clear : (u : User) → (clear_lockout_state u).failed_login_window_started_at ≡ none
unfolding clear_lockout_state
window-clear u = refl

module _ (D : Users) where
  open D use {State, get_user, get-save, id-get}

  stored :
      (i : ℕ) (s : State) (u : User)
      → get_user s i ≡ some u
      → get_user (record_login_success D i s).1 i ≡ some (clear_lockout_state u)
  unfolding record_login_success
  stored i s u e =
      rw (e, lock_user)
        (ground (arith, get-save s (clear_lockout_state u) i, id-clear u, id-get s i u e))

  -- After a success the failures before it no longer count: failures at the given times, the first
  -- of them and the others less than the observation window behind it, are counted from one, lock
  -- the account once they alone reach the threshold, and before that leave it active without a lock.
  failures_after_success :
      (settings : Settings) (i t : ℕ) (ts : List ℕ) (s : State) (u : User)
      → get_user s i ≡ some u
      → All (IsInside settings t) ts
      → (v : User) × (get_user (record_all D settings i (t ∷ ts) (record_login_success D i s).1) i
          ≡ some v)
        × Counted settings t (clear_lockout_state u) (length (t ∷ ts)) (last t ts) v
  failures_after_success settings i t ts s u e inside =
      failures_lock D settings i t ts (record_login_success D i s).1 (clear_lockout_state u)
        (stored i s u e) (window-clear u) inside
