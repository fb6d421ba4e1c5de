-- ===== src/Client/Endpoints.antt =====
-- The paths of the API that the operator knows.
use databasus_operator.Prelude.{String, ◌<>◌}

pub data IsEndpoint : String → Type 0 where
  sign_in_path : IsEndpoint "/api/v1/users/signin"
  workspaces_path : IsEndpoint "/api/v1/workspaces"
  health_path : IsEndpoint "/api/v1/system/health"
  storages_path : IsEndpoint "/api/v1/storages"
  storage_path : (id : String) → IsEndpoint ("/api/v1/storages/" <> id)
  notifiers_path : IsEndpoint "/api/v1/notifiers"
  notifier_path : (id : String) → IsEndpoint ("/api/v1/notifiers/" <> id)
  create_path : IsEndpoint "/api/v1/databases/create"
  update_path : IsEndpoint "/api/v1/databases/update"
  database_path : (id : String) → IsEndpoint ("/api/v1/databases/" <> id)
  backup_configs_path : IsEndpoint "/api/v1/backup-configs/save"
  healthcheck_path : IsEndpoint "/api/v1/healthcheck-config"
