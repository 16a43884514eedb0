-- ===== src/Config.antt =====
-- backend/src/litemcp/core/config.py: the settings and the checks of a production environment.
pub mod Fernet
pub mod Lists
pub mod Production
pub mod Load
use lite_mcp.Base.{ℕ, String, Bool, List}

pub data Environment : Type 0 where
  dev test prod : Environment

pub data LogLevel : Type 0 where
  debug info warning error critical : LogLevel

-- `SecretStr` values are the text that `get_secret_value` returns. `storage_backend`, which has one
-- value, is left out.
pub record Settings : Type 0 where
  pub app_name : String
  pub environment : Environment
  pub debug : Bool
  pub log_level : LogLevel
  pub database_url : String
  pub redis_url : String
  pub encryption_keys : List String
  pub gateway_enabled : Bool
  pub allowed_origins : List String
  pub trusted_proxies : List String
  pub storage_path : String
  pub argon2_memory_cost_kib : ℕ
  pub argon2_time_cost : ℕ
  pub argon2_parallelism : ℕ
  pub admin_jwt_secret : String
  pub admin_jwt_issuer : String
  pub admin_jwt_audience : String
  pub admin_jwt_kid : String
  pub admin_jwt_algorithm : String
  pub admin_jwt_clock_skew_seconds : ℕ
  pub admin_jwt_previous_keys : List (String × String)
  pub admin_access_ttl_seconds : ℕ
  pub admin_refresh_idle_ttl_seconds : ℕ
  pub admin_refresh_absolute_ttl_seconds : ℕ
  pub admin_session_environment : String
  pub admin_login_failure_threshold : ℕ
  pub admin_login_failure_window_seconds : ℕ
  pub admin_lock_seconds : ℕ

-- `Environment.value`
abbrev pub value : Environment → String
value dev = "dev"
value test = "test"
value prod = "prod"
