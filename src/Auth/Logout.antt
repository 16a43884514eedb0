-- ===== src/Auth/Logout.antt =====
-- backend/src/litemcp/auth/logout.py. The world is that of a refresh. The arguments that the source
-- deletes unread are left out; `now` is the clock's value, `event_id` that of `uuid4`.
pub mod Everywhere
pub mod Stored
pub mod Tests
use lite_mcp.Base.{
  ℕ, String, Bool, true, false, Option, none, some, List, [], ◌∷◌, ◌++◌, lookup, if◌then◌else◌,
}
use lite_mcp.Base.Exec.{Result, ok, err, Exec, ◌>>=◌, ◌>>◌, pure, raise, gets, modify, guard}
use lite_mcp.Platform.Time.{aware}
use lite_mcp.Platform.Python
use lite_mcp.Platform.Python.{Stdlib}
use lite_mcp.Platform.Redis.{Redis, RedisError, wrong_type}
use lite_mcp.Db.Users.{Users}
use lite_mcp.Db.AuditEvent.{AuditEvent}
use lite_mcp.Auth.Session.{admin_session_key, user_sessions_key}
use lite_mcp.Auth.Refresh.{World, parse_refresh_token, compare_member}

-- `LogoutRejected`, and what the calls inside may raise: `uuid.UUID`, and Redis on a key of
-- another type.
pub data LogoutError : Type 0 where
  logout_rejected value_error : LogoutError
  redis_error : RedisError → LogoutError

-- Who logs out, and what is written beside it.
pub record Actor : Type 0 where
  pub actor_user_id : ℕ
  pub request_id : String
  pub event_id : ℕ
  pub now : ℕ

-- `str(value)` of a JSON member
abbrev str : Python.Member → String
str (Python.Member.text s) = s
str (Python.Member.value s) = s

-- The row of `_persist_logout_audit`.
unfoldable pub logout_event : Stdlib → Actor → String → String → AuditEvent
logout_event py a action resource_id = record {
  id = a.event_id;
  occurred_at = aware a.now;
  request_id = a.request_id;
  actor_type = "user";
  actor_id = some (py.uuid_str a.actor_user_id);
  action = action;
  resource_type = "admin_session";
  resource_id = some resource_id;
  service_id = none;
  result = "success";
  reason_code = none;
  source_ip = none;
  user_agent = none;
  changes = none;
  meta = none;
  previous_event_hash = none;
  event_hash = none;
}

module _ (py : Stdlib) (R : Redis) (D : Users) where
  open py use {uuid_str, uuid_parse, json_loads}
  open R use {State, get, delete, srem, smembers}

  abbrev pub LogoutStep : Type 0 → Type 0
  LogoutStep A = Exec (World R D) LogoutError A

  abbrev on_redis : (State → State) → LogoutStep (Unit {0})
  on_redis f = modify (λ w. record w { redis = f w.redis })

  abbrev persist_logout_audit : Actor → String → String → LogoutStep (Unit {0})
  persist_logout_audit a action resource_id =
      modify (λ w. record w { audit = w.audit ++ logout_event py a action resource_id ∷ [] })

  -- An `Option` whose `None` is rejected.
  abbrev or_rejected : {A : Type 0} → Option A → LogoutStep A
  or_rejected none = raise logout_rejected
  or_rejected (some a) = pure a

  abbrev or_value_error : {A : Type 0} → Option A → LogoutStep A
  or_value_error none = raise value_error
  or_value_error (some a) = pure a

  -- `redis.get(key)`
  get_text : String → LogoutStep (Option String)
  get_text key w = elim (get w.redis key) [
    | ok raw ↦ (ok raw, w)
    | err e ↦ (err (redis_error e), w)
  ]

  pub logout_current_session : String → String → Actor → LogoutStep (Unit {0})
  logout_current_session opaque_token environment a = do
    (session_id, presented_secret) ← or_rejected (parse_refresh_token opaque_token)
    let key = admin_session_key environment session_id
    found ← get_text key
    raw ← or_rejected found
    payload ← or_rejected (json_loads raw)
    stored_hash ← or_rejected (lookup "current_secret_hash" payload)
    session_user_id ← or_rejected (lookup "user_id" payload)
    guard (compare_member py stored_hash presented_secret) logout_rejected
    on_redis (λ s. delete s key)
    user_id ← or_value_error (uuid_parse (str session_user_id))
    on_redis (λ s. srem s (user_sessions_key environment (uuid_str user_id)) session_id)
    persist_logout_audit a "auth.logout" session_id

  -- The loop over the ids of the set.
  delete_sessions : String → List String → State → State
  delete_sessions environment [] s = s
  delete_sessions environment (session_id ∷ ids) s =
      delete_sessions environment ids (delete s (admin_session_key environment session_id))

  pub logout_all_sessions : ℕ → String → Actor → LogoutStep (Unit {0})
  unfolding delete_sessions
  logout_all_sessions user_id environment a = do
    let set_key = user_sessions_key environment (uuid_str user_id)
    session_ids ← gets (λ w. smembers w.redis set_key)
    on_redis (delete_sessions environment session_ids)
    on_redis (λ s. delete s set_key)
    persist_logout_audit a "auth.logout_all" (uuid_str user_id)
