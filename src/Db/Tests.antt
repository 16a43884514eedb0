-- ===== src/Db/Tests.antt =====
-- The theorems on the table `mcp_service` at a concrete table.
use lite_mcp.Base.{ℕ, String, none, some, List, [], ◌∷◌, ◌≡◌}
use lite_mcp.Base.Integer.{pos}
use lite_mcp.Base.Exec.{err}
use lite_mcp.Platform.Time.{aware}
use lite_mcp.Db.Service.{Service}
use lite_mcp.Db.Repository.{concurrent_modification, update_with_row_version, second_writer_refused}

-- A service of the given id, version and description, and one that was deleted.
abbrev service : ℕ → Service
service i = record {
  id = i;
  namespace_key = "n";
  team_id = 1;
  type = "http_api";
  name = "weather";
  name_normalized = "weather";
  uniqueness_scope = "LIVE";
  tags = "[]";
  description = none;
  icon_object_key = none;
  desired_status = "enabled";
  generation = pos 1;
  observed_generation = pos 0;
  runtime_status = "pending";
  active_config_revision_id = none;
  active_toolset_id = none;
  agent_auth_mode = "api_key";
  rate_limit_qps = none;
  rate_limit_burst = none;
  queue_max_depth = none;
  queue_timeout_ms = none;
  stdio_instance_max = none;
  stdio_concurrency_per_instance = none;
  created_at = aware 0;
  created_by = "u";
  updated_at = aware 0;
  updated_by = "u";
  row_version = pos 1;
  deleted_at = none;
  deleted_by = none;
}

abbrev deleted : ℕ → Service
deleted i = record (service i) {
  uniqueness_scope = "t";
  deleted_at = some (aware 5);
  deleted_by = some "u";
}

abbrev rows : List Service
rows = service 3 ∷ deleted 4 ∷ []

abbrev rename : String → Service → Service
rename name s = record s { name = name }

second_writer_refused_example :
    update_with_row_version 3
      (pos 1)
      (rename "b")
      (update_with_row_version 3 (pos 1) (rename "a") rows).1
    ≡ (err concurrent_modification, (update_with_row_version 3 (pos 1) (rename "a") rows).1)
second_writer_refused_example = second_writer_refused 3 (pos 1) (rename "a") (rename "b") rows
