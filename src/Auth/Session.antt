-- ===== src/Auth/Session.antt =====
-- backend/src/litemcp/auth/session.py. The values that `secrets` and the clock give in the call are
-- arguments; `jwt.encode` is a parameter.
pub mod Keys
use lite_mcp.Base.{ℕ, ◌+◌, ◌/◌, String, ◌&◌, [], ◌∷◌, List, ◌==◌, if◌then◌else◌}
use lite_mcp.Platform.Time.{seconds}
use lite_mcp.Platform.Python.{Stdlib}
use lite_mcp.Platform.Redis.{Redis}
use lite_mcp.Config.{Settings, value}
use lite_mcp.Db.User.{User}

pub record LoginSession : Type 0 where
  pub access_token : String
  pub expires_in : ℕ
  pub refresh_token : String
  pub session_id : String

pub record Claims : Type 0 where
  pub iss : String
  pub aud : String
  pub sub : String
  pub sid : String
  pub jti : String
  pub iat : ℕ
  pub nbf : ℕ
  pub exp : ℕ
  pub token_type : String

pub record Headers : Type 0 where
  pub alg : String
  pub typ : String
  pub kid : String

-- `jwt.encode(claims, secret, algorithm=…, headers=…)`
abbrev pub Encode : Type 0
Encode = Claims → String → String → Headers → String

unfoldable pub session_environment : Settings → String
session_environment settings =
    if settings.admin_session_environment == ""
    then value settings.environment
    else settings.admin_session_environment

-- The keys of Redis in an environment.
abbrev pub admin_session_key : String → String → String
admin_session_key environment session_id = "litemcp:" & environment & ":admin_session:" & session_id

abbrev pub user_sessions_key : String → String → String
user_sessions_key environment user_id = "litemcp:" & environment & ":user_sessions:" & user_id

-- What `secrets` draws in `create_login_session`, and what the clock says in it.
pub record LoginDraws : Type 0 where
  pub session_id : String
  pub random_secret : String
  pub jti : String
  pub token_now : ℕ
  pub now : ℕ

module _ (py : Stdlib) (encode : Encode) where
  open py use {sha256, isoformat, uuid_str}

  -- The token's claims, headers and lifetime; `now` is in microseconds, `iat` in seconds.
  unfoldable pub build_access_token : User → String → Settings → String → ℕ → String × ℕ
  build_access_token user session_id settings jti now =
      let iat = now / 1000000 in
      let ttl = settings.admin_access_ttl_seconds in
      let claims : Claims = record {
        iss = settings.admin_jwt_issuer;
        aud = settings.admin_jwt_audience;
        sub = uuid_str user.id;
        sid = session_id;
        jti = jti;
        iat = iat;
        nbf = iat;
        exp = iat + ttl;
        token_type = "access";
      } in
      let headers : Headers = record {
        alg = "HS256";
        typ = "at+jwt";
        kid = settings.admin_jwt_kid;
      } in
      (encode claims settings.admin_jwt_secret "HS256" headers, ttl)

  -- The fields of a new session.
  unfoldable pub session_fields : User → Settings → LoginDraws → List (String × String)
  session_fields user settings d =
      ("user_id", uuid_str user.id)
      ∷ ("current_secret_hash", sha256 d.random_secret)
      ∷ ("created_at", isoformat d.now)
      ∷ ("last_refreshed_at", isoformat d.now)
      ∷ ("idle_expires_at", isoformat (d.now + seconds settings.admin_refresh_idle_ttl_seconds))
      ∷ (
        "absolute_expires_at",
        isoformat (d.now + seconds settings.admin_refresh_absolute_ttl_seconds),
      )
      ∷ []

  module _ (R : Redis) where
    open R use {State, hset, expire, sadd}

    -- The pipeline's three commands, in order.
    unfoldable pub create_login_session :
        Settings → LoginDraws → User → State → LoginSession × State
    unfolding session_environment session_fields
    create_login_session settings d user s =
        let (access_token, expires_in) =
          build_access_token user d.session_id settings d.jti d.token_now in
        let environment = session_environment settings in
        let user_id = uuid_str user.id in
        let session_key = admin_session_key environment d.session_id in
        let s₁ = hset s session_key (session_fields user settings d) in
        let s₂ = expire s₁ session_key settings.admin_refresh_absolute_ttl_seconds in
        let s₃ = sadd s₂ (user_sessions_key environment user_id) d.session_id in
        let session : LoginSession = record {
          access_token = access_token;
          expires_in = expires_in;
          refresh_token = d.session_id & "." & d.random_secret;
          session_id = d.session_id;
        } in
        (session, s₃)
