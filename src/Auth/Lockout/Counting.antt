-- ===== src/Auth/Lockout/Counting.antt =====
-- How failures add up to a lock.
use lite_mcp.Base.{ℕ, ◌+◌, ◌<◌, ◌≤◌, ◌≡◌, some, none, List, [], ◌∷◌, All, length, arith}
use mathlib.Core.Path.{subst}
use lite_mcp.Platform.Time.{aware, seconds}
use lite_mcp.Config.{Settings}
use lite_mcp.Db.User.{User}
use lite_mcp.Db.Users.{Users}
use lite_mcp.Auth.Lockout.{fail_attempt, record_login_failure, lock_user}

-- The failures at the given times, one after the other.
abbrev pub fail_all : Settings → List ℕ → User → User
fail_all settings [] u = u
fail_all settings (t ∷ ts) u = fail_all settings ts (fail_attempt settings t u)

abbrev pub last : ℕ → List ℕ → ℕ
last t [] = t
last t (t' ∷ ts) = last t' ts

module _ (settings : Settings) (t₀ : ℕ) where
  abbrev pub IsInside : ℕ → Type 0
  IsInside t = t < t₀ + seconds settings.admin_login_failure_window_seconds

  -- What a row says of `n` failures, the last at `t`, in the window that began at `t₀`.
  pub record Counted (u : User) (n t : ℕ) (v : User) : Type 0 where
    pub count : v.failed_login_count ≡ n
    pub window : v.failed_login_window_started_at ≡ some (aware t₀)
    pub locks : settings.admin_login_failure_threshold ≤ n → v.status ≡ "locked"
    pub until :
        settings.admin_login_failure_threshold ≤ n
        → v.locked_until ≡ some (aware (t + seconds settings.admin_lock_seconds))
    pub keeps_status : n < settings.admin_login_failure_threshold → v.status ≡ u.status
    pub keeps_until : n < settings.admin_login_failure_threshold → v.locked_until ≡ u.locked_until

  Counted-first :
      (u : User)
      → u.failed_login_window_started_at ≡ none
      → Counted u 1 t₀ (fail_attempt settings t₀ u)
  unfolding fail_attempt
  Counted-first u h = ground arith

  Counted-next :
      (u v : User) (n t t' : ℕ)
      → Counted u n t v
      → IsInside t'
      → Counted u (n + 1) t' (fail_attempt settings t' v)
  unfolding fail_attempt
  Counted-next u v n t t' c h = ground arith

  Counted-All :
      (u v : User) (n t : ℕ) (ts : List ℕ)
      → Counted u n t v
      → All IsInside ts
      → Counted u (n + length ts) (last t ts) (fail_all settings ts v)
  Counted-All u v n t [] c h = subst (λ k. Counted u k t v) (omega arith) c
  Counted-All u v n t (t' ∷ ts) c (h, hs) =
      subst (λ k. Counted u k (last t' ts) (fail_all settings ts (fail_attempt settings t' v)))
        (omega arith)
        (Counted-All u (fail_attempt settings t' v) (n + 1) t' ts (Counted-next u v n t t' c h) hs)

id-fail : (settings : Settings) (t : ℕ) (u : User) → (fail_attempt settings t u).id ≡ u.id
unfolding fail_attempt
id-fail settings t u = ground arith

module _ (D : Users) where
  open D use {State, get_user, save_user, get-save, id-get}

  -- `record_login_failure` at each of the times, each call in a transaction of its own.
  abbrev pub record_all : Settings → ℕ → List ℕ → State → State
  record_all settings i [] s = s
  record_all settings i (t ∷ ts) s =
      record_all settings i ts (record_login_failure D settings i t s).1

  pub record_one :
      (settings : Settings) (i t : ℕ) (s : State) (u : User)
      → get_user s i ≡ some u
      → get_user (record_login_failure D settings i t s).1 i ≡ some (fail_attempt settings t u)
  unfolding record_login_failure
  record_one settings i t s u e =
      rw (e, lock_user)
        (ground
          (arith, id-get s i u e, get-save s (fail_attempt settings t u) i, id-fail settings t u))

  record_all-fail_all :
      (settings : Settings) (i : ℕ) (ts : List ℕ) (s : State) (u : User)
      → get_user s i ≡ some u
      → get_user (record_all settings i ts s) i ≡ some (fail_all settings ts u)
  record_all-fail_all settings i [] s u e = e
  record_all-fail_all settings i (t ∷ ts) s u e =
      record_all-fail_all settings i ts _ _ (record_one settings i t s u e)

  -- Failures of an account whose window is clear, the first at `t` and the others less than the
  -- observation window after it: the row counts each of them, is locked until the lock time after
  -- the last one once their number has reached the threshold, and before that keeps its status and
  -- its lock time.
  pub failures_lock :
      (settings : Settings) (i t : ℕ) (ts : List ℕ) (s : State) (u : User)
      → get_user s i ≡ some u
      → u.failed_login_window_started_at ≡ none
      → All (IsInside settings t) ts
      → (v : User) × (get_user (record_all settings i (t ∷ ts) s) i ≡ some v)
        × Counted settings t u (length (t ∷ ts)) (last t ts) v
  failures_lock settings i t ts s u e h inside = (
    fail_all settings (t ∷ ts) u,
    record_all-fail_all settings i (t ∷ ts) s u e,
    subst (λ k. Counted settings t u k (last t ts) (fail_all settings (t ∷ ts) u)) (omega arith)
        (Counted-All settings t u _ 1 t ts (Counted-first settings t u h) inside),
  )
