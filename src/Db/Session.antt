-- ===== src/Db/Session.antt =====
-- backend/src/litemcp/db/session.py: the sessions of a factory, whose engine is known by a number.
-- SQLAlchemy and `get_settings` are parameters.
use lite_mcp.Base.{ℕ, String, ◌≡◌}
use lite_mcp.Base.Exec.{Exec, ◌>>=◌}
use lite_mcp.Config.{Settings}
use lite_mcp.Platform.Python.{Exception}
use lite_mcp.Platform.Resources.{
  State, engine, session, on_world, acquire, release, with_resource, with_resource-held,
}

pub record Sqlalchemy (W : Type 0) : Type 0 where
  pub get_settings : Exec W Exception Settings
  pub create_async_engine : String → Exec W Exception ℕ
  -- `AsyncSession(bind=engine, expire_on_commit=False)`, and `close`
  pub async_session : ℕ → Exec W Exception ℕ
  pub close : ℕ → Exec W Exception (Unit {0})
  pub dispose : ℕ → Exec W Exception (Unit {0})

module _ {W : Type 0} (d : Sqlalchemy W) where
  open d use {get_settings, create_async_engine, async_session, close}

  -- `get_session_factory`
  unfoldable pub get_session_factory : Exec (State W) Exception ℕ
  get_session_factory = on_world get_settings >>= λ settings.
      acquire engine (create_async_engine settings.database_url)

  -- `AsyncSessionFactory.dispose`
  unfoldable pub dispose_factory : ℕ → Exec (State W) Exception (Unit {0})
  dispose_factory n = release (engine n) (d.dispose n)

  module _ {A : Type 0} where
    -- `async with factory.session() as s`, around a body
    unfoldable pub with_session : ℕ → (ℕ → Exec (State W) Exception A) → Exec (State W) Exception A
    with_session n body = with_resource session (async_session n) body close

    -- A session is closed whatever its body raises: what was held before is held after it.
    pub session_released :
        (n : ℕ) (body : ℕ → Exec (State W) Exception A)
        → ((m : ℕ) (s : State W) → (body m s).1.held ≡ s.held)
        → (s : State W) → (with_session n body s).1.held ≡ s.held
    unfolding with_session
    session_released n body keeps s =
        with_resource-held session (async_session n) body close keeps s
