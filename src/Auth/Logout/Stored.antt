-- ===== src/Auth/Logout/Stored.antt =====
-- `logout_current_session` reads a session as a JSON text, and a login stores it as a hash.
use lite_mcp.Base.{◌<◌, String, false, ◌&◌, ◌≡◌, ◌∙◌, sym, refl}
use lite_mcp.Base.Exec.{err}
use lite_mcp.Platform.Python.{Stdlib, StdlibLaws}
use lite_mcp.Platform.Redis.{Redis, RedisLaws, wrong_type}
use lite_mcp.Config.{Settings}
use lite_mcp.Db.User.{User}
use lite_mcp.Db.Users.{Users}
use lite_mcp.Auth.Session.{
  Encode, LoginDraws, session_environment, admin_session_key, user_sessions_key, session_fields,
  create_login_session,
}
use lite_mcp.Auth.Session.Keys.{session_key-ne-user_key}
use lite_mcp.Auth.Refresh.{World}
use lite_mcp.Auth.Refresh.Holding.{IsPiece, parse-token}
use lite_mcp.Auth.Refresh.Login.{login}
use lite_mcp.Auth.Logout.{Actor, redis_error, get_text, logout_current_session}

module _ (py : Stdlib) (pyl : StdlibLaws py) (R : Redis) (laws : RedisLaws R) (encode : Encode)
    (settings : Settings) where
  open R use {State, get, exists}

  get-login :
      (l : LoginDraws) (user : User) (s : State)
      → 0 < settings.admin_refresh_absolute_ttl_seconds
      → exists s (admin_session_key (session_environment settings) l.session_id) ≡ false
      → get
          (create_login_session py encode R settings l user s).1
          (admin_session_key (session_environment settings) l.session_id)
        ≡ err wrong_type
  unfolding create_login_session
  get-login l user s pos fresh =
      let env = session_environment settings in
      let k = admin_session_key env l.session_id in
      laws.get-sadd _ (user_sessions_key env (py.uuid_str user.id)) k l.session_id
        (λ e. session_key-ne-user_key env l.session_id (py.uuid_str user.id) (sym e))
      ∙ laws.get-expire _ k k settings.admin_refresh_absolute_ttl_seconds pos
      ∙ laws.get-hset s k (session_fields py encode user settings l) fresh

  token-login :
      (l : LoginDraws) (user : User) (s : State)
      → (create_login_session py encode R settings l user s).0.refresh_token
        ≡ l.session_id & "." & l.random_secret
  unfolding create_login_session
  token-login l user s = refl

  get_text-fails :
      (D : Users) (w : World R D) (key : String)
      → get w.redis key ≡ err wrong_type
      → get_text py R D key w ≡ (err (redis_error wrong_type), w)
  unfolding get_text
  get_text-fails D w key h = rw (h, get_text) refl

  -- The refresh token that a login has just given out cannot log its session out: under a session
  -- id that was free, `logout_current_session` raises the error of Redis for a key of another type,
  -- and Redis, the users and the audit table stay as the login left them.
  pub logout_after_login :
      (D : Users) (l : LoginDraws) (user : User) (a : Actor) (w : World R D)
      → IsPiece l.session_id
      → IsPiece l.random_secret
      → 0 < settings.admin_refresh_absolute_ttl_seconds
      → exists w.redis (admin_session_key (session_environment settings) l.session_id) ≡ false
      → logout_current_session py R D
          (create_login_session py encode R settings l user w.redis).0.refresh_token
          (session_environment settings)
          a
          (login py pyl R laws encode settings l user w)
        ≡ (err (redis_error wrong_type), login py pyl R laws encode settings l user w)
  unfolding logout_current_session
  logout_after_login D l user a w p q pos fresh =
      rw
        (
          token-login l user w.redis,
          parse-token l.session_id l.random_secret p q,
          get_text-fails D (login py pyl R laws encode settings l user w)
              (admin_session_key (session_environment settings) l.session_id)
              (get-login l user w.redis pos fresh),
        )
        refl
