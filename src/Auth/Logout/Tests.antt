-- ===== src/Auth/Logout/Tests.antt =====
-- The theorems on logout at a concrete login.
use lite_mcp.Base.{◌≡◌, refl, arith}
use lite_mcp.Base.Exec.{ok, err}
use lite_mcp.Platform.Redis.{wrong_type}
use lite_mcp.Platform.Memory.Store.{memory_redis, memory_redis-laws}
use lite_mcp.Platform.Memory.Values.{memory_stdlib, memory_stdlib-laws}
use lite_mcp.Platform.Memory.Rows.{memory_users}
use lite_mcp.Platform.Memory.Sample.{sample_settings, ann, no_keys}
use lite_mcp.Auth.Session.{create_login_session, session_environment}
use lite_mcp.Auth.Refresh.{World}
use lite_mcp.Auth.Refresh.Login.{login}
use lite_mcp.Auth.Refresh.Tests.{encoded, draws, empty, IsPiece-a, IsPiece-b}
use lite_mcp.Auth.Logout.{Actor, redis_error, logout_current_session, logout_all_sessions}
use lite_mcp.Auth.Logout.Everywhere.{EndsAll, logout_all_ends}
use lite_mcp.Auth.Logout.Stored.{logout_after_login}

abbrev pub actor : Actor
actor = record { actor_user_id = 7; request_id = "r"; event_id = 2; now = 9 }

abbrev started : World memory_redis memory_users
started =
    login memory_stdlib memory_stdlib-laws memory_redis memory_redis-laws encoded sample_settings
      draws ann empty

logout_all_ends_example :
    ((logout_all_sessions memory_stdlib memory_redis memory_users 7 "dev" actor started).0 ≡ ok tt)
    × EndsAll memory_stdlib memory_redis memory_redis-laws memory_users "dev" 7 actor started
        (logout_all_sessions memory_stdlib memory_redis memory_users 7 "dev" actor started).1
logout_all_ends_example =
    logout_all_ends memory_stdlib memory_redis memory_redis-laws memory_users "dev" 7 actor started

logout_after_login_example :
    logout_current_session memory_stdlib memory_redis memory_users
      (create_login_session memory_stdlib encoded memory_redis sample_settings draws ann
        no_keys).0.refresh_token
      (session_environment sample_settings)
      actor
      started
    ≡ (err (redis_error wrong_type), started)
logout_after_login_example =
    logout_after_login memory_stdlib memory_stdlib-laws memory_redis memory_redis-laws encoded
      sample_settings memory_users draws ann actor empty IsPiece-a IsPiece-b (omega arith) refl
