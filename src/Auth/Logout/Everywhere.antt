-- ===== src/Auth/Logout/Everywhere.antt =====
-- `logout_all_sessions` ends every session of a user, and no other.
use text.Mathlib.TextPositions.{eq_refl}
use lite_mcp.Base.{
  ℕ, String, Bool, true, false, List, [], ◌∷◌, ◌++◌, ◌≡◌, ◌∙◌, sym, ap, refl, arith, eq_iff, member,
  ◌==◌, ◌||◌, inl, inr, Bool-cases, if◌then◌else◌,
}
use lite_mcp.Base.Exec.{ok}
use lite_mcp.Platform.Python.{Stdlib}
use lite_mcp.Platform.Redis.{Redis, RedisLaws}
use lite_mcp.Db.Users.{Users}
use lite_mcp.Auth.Session.{admin_session_key, user_sessions_key}
use lite_mcp.Auth.Session.Keys.{admin_session_key-injective, session_key-ne-user_key}
use lite_mcp.Auth.Refresh.{World}
use lite_mcp.Base.Tests.{str_ne}
use lite_mcp.Auth.Logout.{Actor, logout_event, delete_sessions, logout_all_sessions}

merge :
    (a b c : Bool) → (if b then false else (if a then false else c)) ≡ (if a || b then false else c)
merge a b c = ground arith

module _ (py : Stdlib) (R : Redis) (laws : RedisLaws R) (D : Users) (environment : String) where
  open R use {State, exists, smembers, delete}

  same_key :
      (i x : String)
      → (admin_session_key environment i == admin_session_key environment x) ≡ (i == x)
  same_key i x = elim (Bool-cases (i == x)) [
    | inl e ↦ rw e (
        (eq_iff (admin_session_key environment i) (admin_session_key environment x)).1
          (ap (admin_session_key environment) ((eq_iff i x).0 e)))
    | inr e ↦ rw e (
        str_ne (admin_session_key environment i) (admin_session_key environment x)
          (λ q. ground (arith, eq_iff i x, admin_session_key-injective environment i x q)))
  ]

  -- The deletion of the set leaves the sessions.
  exists-delete_set :
      (s : State) (u x : String)
      → exists (delete s (user_sessions_key environment u)) (admin_session_key environment x)
        ≡ exists s (admin_session_key environment x)
  exists-delete_set s u x =
      rw
        (
          laws.exists-delete s (user_sessions_key environment u) (admin_session_key environment x),
          str_ne (user_sessions_key environment u) (admin_session_key environment x)
              (λ e. session_key-ne-user_key environment x u (sym e)),
        )
        refl

  -- The sessions of the list are gone, and the others are as they were.
  exists-delete_sessions :
      (ids : List String) (s : State) (x : String)
      → exists (delete_sessions py R D environment ids s) (admin_session_key environment x)
        ≡ (if member x ids then false else exists s (admin_session_key environment x))
  unfolding delete_sessions member
  exists-delete_sessions [] s x = refl
  exists-delete_sessions (i ∷ ids) s x =
      rw
        (
          exists-delete_sessions ids (delete s (admin_session_key environment i)) x,
          laws.exists-delete s (admin_session_key environment i) (admin_session_key environment x),
          same_key i x,
        )
        (merge (i == x) (member x ids) (exists s (admin_session_key environment x)))

  -- Every session id that the user's set had is gone from Redis and any other session is as it was;
  -- the set is empty; the users are unchanged, and one audit event is added.
  pub record EndsAll (user_id : ℕ) (a : Actor) (w w' : World R D) : Type 0 where
    pub gone :
        (x : String)
        → member x (smembers w.redis (user_sessions_key environment (py.uuid_str user_id))) ≡ true
        → exists w'.redis (admin_session_key environment x) ≡ false
    pub others :
        (x : String)
        → member x (smembers w.redis (user_sessions_key environment (py.uuid_str user_id))) ≡ false
        → exists w'.redis (admin_session_key environment x)
          ≡ exists w.redis (admin_session_key environment x)
    pub emptied : smembers w'.redis (user_sessions_key environment (py.uuid_str user_id)) ≡ []
    pub audit : w'.audit ≡ w.audit ++ logout_event py a "auth.logout_all" (py.uuid_str user_id) ∷ []
    pub users : w'.users ≡ w.users

  -- `logout_all_sessions` always returns, and ends all sessions of the user's set and no other.
  pub logout_all_ends :
      (user_id : ℕ) (a : Actor) (w : World R D)
      → ((logout_all_sessions py R D user_id environment a w).0 ≡ ok tt)
        × EndsAll user_id a w (logout_all_sessions py R D user_id environment a w).1
  unfolding logout_all_sessions
  logout_all_ends user_id a w = (
    refl,
    record {
      gone = λ x m.
          exists-delete_set _ _ x
          ∙ exists-delete_sessions
              (smembers w.redis (user_sessions_key environment (py.uuid_str user_id))) w.redis x
          ∙ rw m refl;
      others = λ x m.
          exists-delete_set _ _ x
          ∙ exists-delete_sessions
              (smembers w.redis (user_sessions_key environment (py.uuid_str user_id))) w.redis x
          ∙ rw m refl;
      emptied =
          laws.smembers-delete _ _ _
          ∙ rw (eq_refl (user_sessions_key environment (py.uuid_str user_id))) refl;
      audit = refl;
      users = refl;
    },
  )
