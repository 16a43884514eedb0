-- ===== src/Auth/Refresh.antt =====
-- backend/src/litemcp/auth/refresh.py. A `World` is what the function can see and change: Redis, the
-- user table and the audit table. `rotate_refresh_token` is the sequence of its Redis commands, each
-- of which is an `await`; Refresh/Race takes them apart.
pub mod Stored
pub mod Holding
pub mod Rotation
pub mod Replay
pub mod Race
pub mod Limit
pub mod Lifetime
pub mod Refusals
pub mod Login
pub mod Json
pub mod Tests
unfoldable pub use Stored.*
use lite_mcp.Base.{
  ℕ, ◌+◌, ◌-◌, ◌/◌, max, min, String, Bool, true, false, Option, none, some, List, [], ◌∷◌, ◌++◌,
  ◌&◌, ◌==◌, ◌||◌, not, ltb, leb, is_nil, is_text, is_none, lookup, if◌then◌else◌,
}
use lite_mcp.Base.Exec.{Result, ok, err, Exec, ◌>>=◌, ◌>>◌, pure, raise, lift, gets, modify, guard}
use lite_mcp.Platform.Time.{Datetime, aware, as_utc, seconds}
use lite_mcp.Platform.Python.{Stdlib, Member}
use lite_mcp.Platform.Redis.{Redis, RedisError}
use lite_mcp.Config.{Settings}
use lite_mcp.Db.User.{User}
use lite_mcp.Db.Users.{Users}
use lite_mcp.Db.AuditEvent.{AuditEvent}
use lite_mcp.Auth.Session.{
  Encode, session_environment, admin_session_key, user_sessions_key, build_access_token,
}

-- The subclasses of `RefreshRejected`.
pub data RefreshError : Type 0 where
  malformed_refresh_token session_missing idle_expired absolute_expired : RefreshError
  secret_mismatch user_not_active password_changed : RefreshError

pub record RefreshRotation : Type 0 where
  pub access_token : String
  pub refresh_token : String
  pub expires_in : ℕ

pub record World (R : Redis) (D : Users) : Type 0 where
  pub redis : R.State
  pub users : D.State
  pub audit : List AuditEvent

-- What `secrets`, `uuid4` and the clock give in a call of `rotate_refresh_token`.
pub record RotateDraws : Type 0 where
  pub new_secret : String
  pub jti : String
  pub event_id : ℕ
  pub request_id : String
  pub token_now : ℕ

module _ (py : Stdlib) (encode : Encode) (R : Redis) (D : Users) where
  open py use {sha256, isoformat, uuid_parse}
  open R use {exists, hgetall, hset, expire, delete, srem}
  open D use {get_user}

  abbrev pub Step : Type 0 → Type 0
  Step A = Exec (World R D) RefreshError A

  -- A command of Redis that changes its state.
  abbrev on_redis : (R.State → R.State) → Step (Unit {0})
  on_redis f = modify (λ w. record w { redis = f w.redis })

  -- `_persist_refresh_reuse_audit`
  persist_refresh_reuse_audit : RotateDraws → String → Option String → ℕ → Step (Unit {0})
  persist_refresh_reuse_audit d session_id actor_id now =
      let event : AuditEvent = record {
        id = d.event_id;
        occurred_at = aware now;
        request_id = d.request_id;
        actor_type = if is_none actor_id then "anonymous" else "user";
        actor_id = actor_id;
        action = "auth.refresh_reuse_detected";
        resource_type = "admin_session";
        resource_id = some session_id;
        service_id = none;
        result = "denied";
        reason_code = some "refresh_reuse_detected";
        source_ip = none;
        user_agent = none;
        changes = none;
        meta = none;
        previous_event_hash = none;
        event_hash = none;
      } in
      modify (λ w. record w { audit = w.audit ++ event ∷ [] })

  -- `user_id_raw if _parse_user_id(user_id_raw) is not None else None`
  abbrev actor_of : String → Option String
  actor_of raw = if is_none (uuid_parse raw) then none else some raw

  revoke_refresh_family_on_reuse : Settings → RotateDraws → String → String → ℕ → Step (Unit {0})
  unfolding persist_refresh_reuse_audit
  revoke_refresh_family_on_reuse settings d session_id user_id_raw now = do
    let environment = session_environment settings
    on_redis (λ s. delete s (admin_session_key environment session_id))
    on_redis (λ s. srem s (user_sessions_key environment user_id_raw) session_id)
    persist_refresh_reuse_audit d session_id (actor_of user_id_raw) now

  -- `EXISTS` and `HGETALL`, and what is read of the fields.
  pub load_session : String → Step StoredSession
  load_session key = do
    there ← gets (λ w. exists w.redis key)
    guard there session_missing
    fields ← gets (λ w. hgetall w.redis key)
    guard (not (is_nil fields)) session_missing
    lift (elim (read_session py fields) [ none ↦ err session_missing | some session ↦ ok session ])

  -- `HSET` of the new hash and times.
  write_new_secret : Settings → RotateDraws → String → ℕ → StoredSession → Step (Unit {0})
  write_new_secret settings d key moment session =
      let next_idle =
        min (moment + seconds settings.admin_refresh_idle_ttl_seconds)
          session.absolute_expires_at in
      on_redis (λ s. hset s key (rotated_fields py (sha256 d.new_secret) moment next_idle))

  -- `HGETALL`, and the comparison with the new hash.
  confirm_secret : RotateDraws → String → Step (Unit {0})
  confirm_secret d key = do
    confirmed ← gets (λ w. hgetall w.redis key)
    guard (is_text (lookup "current_secret_hash" confirmed) (sha256 d.new_secret)) secret_mismatch

  pub write_secret : Settings → RotateDraws → String → ℕ → StoredSession → Step (Unit {0})
  unfolding write_new_secret confirm_secret
  write_secret settings d key moment session = do
    write_new_secret settings d key moment session
    confirm_secret d key

  -- `_parse_user_id` and `_load_user`, with the checks on the user
  pub load_active_user : StoredSession → Step User
  load_active_user session w = elim (uuid_parse session.user_id_raw) [
    | none ↦ (err user_not_active, w)
    | some user_id ↦ elim (get_user w.users user_id) [
      | none ↦ (err user_not_active, w)
      | some user ↦
          if not (user.status == "active")
          then (err user_not_active, w)
          else if ltb session.created_at (as_utc user.password_changed_at)
          then (err password_changed, w)
          else (ok user, w)
    ]
  ]

  -- The new expiry of the key, the user, and the tokens.
  mint : Settings → RotateDraws → String → ℕ → StoredSession → Step RefreshRotation
  mint settings d session_id moment session = do
    let remaining_absolute = max 1 ((session.absolute_expires_at - moment) / 1000000)
    on_redis (λ s.
        expire s (admin_session_key (session_environment settings) session_id) remaining_absolute)
    user ← load_active_user session
    let (access_token, expires_in) =
        build_access_token py encode user session_id settings d.jti d.token_now
    pure (record {
      access_token = access_token;
      refresh_token = session_id & "." & d.new_secret;
      expires_in = expires_in;
    })

  -- The part behind the comparison of the secrets.
  rotate_live : Settings → RotateDraws → String → ℕ → StoredSession → Step RefreshRotation
  unfolding mint
  rotate_live settings d session_id moment session = do
    write_secret settings d (admin_session_key (session_environment settings) session_id) moment
        session
    mint settings d session_id moment session

  -- The checks on the times and on the secret, in order.
  check_live : Settings → RotateDraws → String → String → ℕ → StoredSession → Step (Unit {0})
  check_live settings d session_id presented_secret moment session =
      if leb session.absolute_expires_at moment
      then raise absolute_expired
      else if leb session.idle_expires_at moment
      then raise idle_expired
      else if not (compare_refresh_secret py session.stored_hash presented_secret)
      then (revoke_refresh_family_on_reuse settings d session_id session.user_id_raw moment
          >> raise secret_mismatch)
      else pure tt

  pub rotate_session :
      Settings → RotateDraws → String → String → ℕ → StoredSession → Step RefreshRotation
  unfolding check_live
  rotate_session settings d session_id presented_secret moment session = do
    check_live settings d session_id presented_secret moment session
    rotate_live settings d session_id moment session

  abbrev token_or_error : Option (String × String) → Step (String × String)
  token_or_error none = raise malformed_refresh_token
  token_or_error (some parts) = pure parts

  -- `moment` is `now` in UTC.
  pub rotate_refresh_token : Settings → RotateDraws → String → ℕ → Step RefreshRotation
  unfolding load_session
  rotate_refresh_token settings d refresh_token moment = do
    (session_id, presented_secret) ← token_or_error (parse_refresh_token refresh_token)
    session ← load_session (admin_session_key (session_environment settings) session_id)
    rotate_session settings d session_id presented_secret moment session
