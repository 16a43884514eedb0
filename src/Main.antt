-- ===== src/Main.antt =====
-- backend/src/litemcp/main.py: the readiness probes and the routes. The drivers (asyncio, SQLAlchemy,
-- redis) and `get_settings` are parameters on a world of their own; the times are in milliseconds.
pub mod Ready
pub mod Thread
pub mod Routes
pub mod Writes
mod Tests
use lite_mcp.Base.{
  ℕ, String, Bool, true, false, Option, none, some, List, [], ◌∷◌, ◌&&◌, eqb, if◌then◌else◌,
}
use lite_mcp.Base.Exec.{
  Result, ok, err, Exec, ◌>>=◌, ◌>>◌, pure, gets, try_finally, try_except, or_value,
}
use lite_mcp.Base.Slices.{contains, starts_with}
use lite_mcp.Config.{Settings}
use lite_mcp.Platform.Python.{Exception}
use lite_mcp.Platform.Resources.{State, engine, client, on_world, acquire, release}
use Prim.Native.String

pub record Drivers (W : Type 0) : Type 0 where
  pub get_settings : Exec W Exception Settings
  -- `create_async_engine(url, pool_pre_ping=True, connect_args=...)`, with the timeout of the
  -- `connect_args`
  pub create_async_engine : String → Option ℕ → Exec W Exception ℕ
  -- `async with asyncio.timeout(...)`: connect and execute `SELECT 1`
  pub select_one : ℕ → ℕ → Exec W Exception (Unit {0})
  pub dispose : ℕ → Exec W Exception (Unit {0})
  -- `redis.Redis.from_url`, with its two timeouts
  pub from_url : String → ℕ → ℕ → Exec W Exception ℕ
  pub ping : ℕ → Exec W Exception Bool
  pub close : ℕ → Exec W Exception (Unit {0})
  -- `str.lower`
  pub lower : String → String

-- `_PROBE_TIMEOUT`
abbrev pub probe_timeout : ℕ
probe_timeout = 2000

-- `url.split("://", 1)[0]`
pub scheme_of : String → String
scheme_of String.[] = ""
scheme_of (String.◌∷◌ c s) =
    let rest = scheme_of s in if starts_with "://" (String.◌∷◌ c s) then "" else String.◌∷◌ c rest

-- An entry of `components`.
pub record Component : Type 0 where
  pub name : String
  pub status : String
  pub reason : String

abbrev pub component : String → Bool → Component
component name is_ok = record {
  name = name;
  status = if is_ok then "ready" else "not_ready";
  reason = if is_ok then "ok" else "connection_failed";
}

pub record Readiness : Type 0 where
  pub status_code : ℕ
  pub status : String
  pub components : List Component

abbrev pub readiness : Bool → Bool → Readiness
readiness db_ok redis_ok = record {
  status_code = if db_ok && redis_ok then 200 else 503;
  status = if db_ok && redis_ok then "ready" else "not_ready";
  components = component "database" db_ok ∷ component "redis" redis_ok ∷ [];
}

abbrev answered : Result Exception (Unit {0}) → Bool
answered (ok u) = true
answered (err e) = false

module _ {W : Type 0} (d : Drivers W) where
  open d use {get_settings, create_async_engine, select_one, dispose, from_url, ping, close, lower}

  -- `connect_args`
  abbrev connect_timeout : String → Option ℕ
  connect_timeout url =
      if contains "postgres" (lower (scheme_of url)) then some probe_timeout else none

  -- `async with ...: ... return True`, and `except Exception: return False`
  pub select_answers : ℕ → Exec W Exception Bool
  select_answers n w = let (r, w1) = select_one n probe_timeout w in (ok (answered r), w1)

  pub probe_database_async : Exec (State W) Exception Bool
  probe_database_async = do
    settings ← on_world get_settings
    n ←
        acquire engine
          (create_async_engine settings.database_url (connect_timeout settings.database_url))
    try_finally (on_world (select_answers n)) (release (engine n) (dispose n))

  -- On the thread pool no event loop runs, so that `_run_async_probe` runs the coroutine to its end.
  pub probe_database : State W → Bool × State W
  probe_database = try_except probe_database_async false

  pub probe_redis : State W → Bool × State W
  probe_redis =
      try_except
        (do
          settings ← on_world get_settings
          n ← acquire client (from_url settings.redis_url probe_timeout probe_timeout)
          try_finally (on_world (ping n)) (release (client n) (close n)))
        false

  pub readyz : State W → Readiness × State W
  readyz s =
      let (db_ok, s1) = probe_database s in
      let (redis_ok, s2) = probe_redis s1 in (readiness db_ok redis_ok, s2)
