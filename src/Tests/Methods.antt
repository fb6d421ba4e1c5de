-- ===== src/Tests/Methods.antt =====
-- The methods of the client, the sign-in and the delays at concrete data.
use databasus_operator.Prelude.{String, ◌<>◌, ◌==◌, ◌≡◌, ◌↔◌, Option, [], if◌then◌else◌}
use databasus_operator.Effects.{ok}
use databasus_operator.Startup.{authenticate}
use databasus_operator.Startup.SignedIn.{IsSignedIn}
use databasus_operator.Startup.SignedIn.Flow.{authenticate-IsSignedIn}
use databasus_operator.Wire.Storage.{
  StorageRequest, StorageResponse, encode_storage_request, decode_storage_response,
}
use databasus_operator.Wire.Notifier.{
  NotifierRequest, NotifierResponse, encode_notifier_request, decode_notifier_response,
}
use databasus_operator.Wire.Database.{
  DatabaseRequest, DatabaseResponse, encode_database_request, decode_database_response,
}
use databasus_operator.Wire.BackupConfig.{
  BackupConfigRequest, BackupConfigResponse, encode_backup_config_request,
  decode_backup_config_response,
}
use databasus_operator.Wire.Healthcheck.{
  HealthcheckConfigRequest, HealthcheckConfigResponse, encode_healthcheck_config_request,
  decode_healthcheck_config_response,
}
use databasus_operator.Client.Saved.{not_ok, not_created}
use databasus_operator.Client.Storage.{save_storage, get_storage}
use databasus_operator.Client.Notifier.{save_notifier, get_notifier}
use databasus_operator.Client.Database.{create_database, update_database, get_database}
use databasus_operator.Client.BackupConfig.{save_backup_config, get_backup_config}
use databasus_operator.Client.Healthcheck.{save_healthcheck_config, get_healthcheck_config}
use databasus_operator.Client.Answers.{IsSaved, IsRead}
use databasus_operator.Client.Answers.Methods.{saves_iff, reads_iff}
use databasus_operator.Tests.Cluster.{memory}
use databasus_operator.Tests.Objects.{client, secret}
use databasus_operator.Tests.Runs.{new_backup, starting}

authenticate-IsSignedIn_example :
    IsSignedIn "http://databasus:4005" secret []
      (authenticate memory "http://databasus:4005" secret starting).0
      (authenticate memory "http://databasus:4005" secret starting).1.log
authenticate-IsSignedIn_example =
    authenticate-IsSignedIn memory "http://databasus:4005" secret starting

saves_iff_example :
    ((r : StorageRequest) (a : StorageResponse)
      → ((save_storage memory client r new_backup).0 ≡ ok a)
        ↔ IsSaved memory client new_backup "/api/v1/storages" not_ok decode_storage_response
            (encode_storage_request
              (if r.workspace_id == "" then record r { workspace_id = client.workspace_id } else r))
            a)
    × ((r : NotifierRequest) (a : NotifierResponse)
        → ((save_notifier memory client r new_backup).0 ≡ ok a)
          ↔ IsSaved memory client new_backup "/api/v1/notifiers" not_ok decode_notifier_response
              (encode_notifier_request (
                if r.workspace_id == ""
                then record r { workspace_id = client.workspace_id }
                else r))
              a)
    × ((r : DatabaseRequest) (a : DatabaseResponse)
        → ((create_database memory client r new_backup).0 ≡ ok a)
          ↔ IsSaved memory client new_backup "/api/v1/databases/create" not_created
              decode_database_response
              (encode_database_request (
                if r.workspace_id == ""
                then record r { workspace_id = client.workspace_id }
                else r))
              a)
    × ((r : DatabaseRequest) (a : DatabaseResponse)
        → ((update_database memory client r new_backup).0 ≡ ok a)
          ↔ IsSaved memory client new_backup "/api/v1/databases/update" not_ok
              decode_database_response
              (encode_database_request (
                if r.workspace_id == ""
                then record r { workspace_id = client.workspace_id }
                else r))
              a)
    × ((r : BackupConfigRequest) (a : BackupConfigResponse)
        → ((save_backup_config memory client r new_backup).0 ≡ ok a)
          ↔ IsSaved memory client new_backup "/api/v1/backup-configs/save" not_ok
              decode_backup_config_response
              (encode_backup_config_request r)
              a)
    × ((r : HealthcheckConfigRequest) (a : HealthcheckConfigResponse)
        → ((save_healthcheck_config memory client r new_backup).0 ≡ ok a)
          ↔ IsSaved memory client new_backup "/api/v1/healthcheck-config" not_ok
              decode_healthcheck_config_response
              (encode_healthcheck_config_request r)
              a)
saves_iff_example = saves_iff memory client new_backup

reads_iff_example :
    ((id : String) (o : Option StorageResponse)
      → ((get_storage memory client id new_backup).0 ≡ ok o)
        ↔ IsRead memory client new_backup ("/api/v1/storages/" <> id) decode_storage_response o)
    × ((id : String) (o : Option NotifierResponse)
        → ((get_notifier memory client id new_backup).0 ≡ ok o)
          ↔ IsRead memory client new_backup ("/api/v1/notifiers/" <> id) decode_notifier_response o)
    × ((id : String) (o : Option DatabaseResponse)
        → ((get_database memory client id new_backup).0 ≡ ok o)
          ↔ IsRead memory client new_backup ("/api/v1/databases/" <> id) decode_database_response o)
    × ((id : String) (o : Option BackupConfigResponse)
        → ((get_backup_config memory client id new_backup).0 ≡ ok o)
          ↔ IsRead memory client new_backup
              ("/api/v1/backup-configs/database/" <> id)
              decode_backup_config_response
              o)
    × ((id : String) (o : Option HealthcheckConfigResponse)
        → ((get_healthcheck_config memory client id new_backup).0 ≡ ok o)
          ↔ IsRead memory client new_backup
              ("/api/v1/healthcheck-config/" <> id)
              decode_healthcheck_config_response
              o)
reads_iff_example = reads_iff memory client new_backup
