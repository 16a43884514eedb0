-- ===== src/Platform/Memory/Sample.antt =====
-- Values at which the theorems are applied.
use lite_mcp.Base.{ℕ, String, false, none, [], ◌∷◌}
use lite_mcp.Platform.Time.{aware}
use lite_mcp.Platform.Memory.Store.{Keys}
use lite_mcp.Config.{Settings, dev, LogLevel}
use lite_mcp.Db.User.{User}

abbrev pub sample_settings : Settings
sample_settings = record {
  app_name = "litemcp";
  environment = dev;
  debug = false;
  log_level = LogLevel.info;
  database_url = "postgresql://db";
  redis_url = "redis://cache";
  encryption_keys = "k" ∷ [];
  gateway_enabled = false;
  allowed_origins = [];
  trusted_proxies = [];
  storage_path = "./data/storage";
  argon2_memory_cost_kib = 19456;
  argon2_time_cost = 2;
  argon2_parallelism = 1;
  admin_jwt_secret = "s";
  admin_jwt_issuer = "i";
  admin_jwt_audience = "litemcp-admin-api";
  admin_jwt_kid = "admin-jwt-2026-01";
  admin_jwt_algorithm = "HS256";
  admin_jwt_clock_skew_seconds = 30;
  admin_jwt_previous_keys = [];
  admin_access_ttl_seconds = 900;
  admin_refresh_idle_ttl_seconds = 28800;
  admin_refresh_absolute_ttl_seconds = 604800;
  admin_session_environment = "";
  admin_login_failure_threshold = 2;
  admin_login_failure_window_seconds = 900;
  admin_lock_seconds = 900;
}

-- An active account of the given role and status.
abbrev pub account : ℕ → String → User
account i status = record {
  id = i;
  username = "Ann";
  username_normalized = "ann";
  password_hash = "h";
  role = "admin";
  status = status;
  password_changed_at = aware 0;
  last_login_at = none;
  failed_login_count = 0;
  failed_login_window_started_at = none;
  locked_until = none;
  created_at = aware 0;
  created_by = "system:bootstrap";
  updated_at = aware 0;
  updated_by = "system:bootstrap";
  row_version = 1;
}

abbrev pub ann : User
ann = account 7 "active"

abbrev pub no_keys : Keys
no_keys = record { hash = λ k. none; set = λ k. []; ttl = λ k. none }
