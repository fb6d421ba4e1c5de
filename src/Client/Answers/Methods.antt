-- ===== src/Client/Answers/Methods.antt =====
-- internal/client/*.go: the methods that save something, and those that read something.
use databasus_operator.Prelude.{String, ◌<>◌, ◌==◌, ◌≡◌, ◌↔◌, Option, if◌then◌else◌}
use databasus_operator.Wire.Storage.{
  StorageRequest, StorageResponse, encode_storage_request, decode_storage_response,
}
use databasus_operator.Wire.Notifier.{
  NotifierRequest, NotifierResponse, encode_notifier_request, decode_notifier_response,
}
use databasus_operator.Wire.Database.{
  DatabaseRequest, DatabaseResponse, encode_database_request, decode_database_response,
}
use databasus_operator.Wire.BackupConfig.{
  BackupConfigRequest, BackupConfigResponse, encode_backup_config_request,
  decode_backup_config_response,
}
use databasus_operator.Wire.Healthcheck.{
  HealthcheckConfigRequest, HealthcheckConfigResponse, encode_healthcheck_config_request,
  decode_healthcheck_config_response,
}
use databasus_operator.Effects.{ok, World, Env}
use databasus_operator.Client.Request.{DatabasusClient}
use databasus_operator.Client.Saved.{not_ok, not_created}
use databasus_operator.Client.Storage.{save_storage, get_storage}
use databasus_operator.Client.Notifier.{save_notifier, get_notifier}
use databasus_operator.Client.Database.{create_database, update_database, get_database}
use databasus_operator.Client.BackupConfig.{save_backup_config, get_backup_config}
use databasus_operator.Client.Healthcheck.{save_healthcheck_config, get_healthcheck_config}
use databasus_operator.Client.Answers.{IsSaved, IsRead, IsSaved-iff, IsRead-iff}

module _ {S : Type 0} (E : Env S) (c : DatabasusClient) (w : World S) where
  save_storage_iff :
      (r : StorageRequest) (a : StorageResponse)
      → ((save_storage E c r w).0 ≡ ok a)
        ↔ IsSaved E c w "/api/v1/storages" not_ok decode_storage_response
            (encode_storage_request
              (if r.workspace_id == "" then record r { workspace_id = c.workspace_id } else r))
            a
  unfolding save_storage
  save_storage_iff r a =
      IsSaved-iff E c w "failed to unmarshal storage response" "/api/v1/storages"
        decode_storage_response not_ok _ a

  save_notifier_iff :
      (r : NotifierRequest) (a : NotifierResponse)
      → ((save_notifier E c r w).0 ≡ ok a)
        ↔ IsSaved E c w "/api/v1/notifiers" not_ok decode_notifier_response
            (encode_notifier_request
              (if r.workspace_id == "" then record r { workspace_id = c.workspace_id } else r))
            a
  unfolding save_notifier
  save_notifier_iff r a =
      IsSaved-iff E c w "failed to unmarshal notifier response" "/api/v1/notifiers"
        decode_notifier_response not_ok _ a

  create_database_iff :
      (r : DatabaseRequest) (a : DatabaseResponse)
      → ((create_database E c r w).0 ≡ ok a)
        ↔ IsSaved E c w "/api/v1/databases/create" not_created decode_database_response
            (encode_database_request
              (if r.workspace_id == "" then record r { workspace_id = c.workspace_id } else r))
            a
  unfolding create_database
  create_database_iff r a =
      IsSaved-iff E c w "failed to unmarshal database response" "/api/v1/databases/create"
        decode_database_response not_created _ a

  update_database_iff :
      (r : DatabaseRequest) (a : DatabaseResponse)
      → ((update_database E c r w).0 ≡ ok a)
        ↔ IsSaved E c w "/api/v1/databases/update" not_ok decode_database_response
            (encode_database_request
              (if r.workspace_id == "" then record r { workspace_id = c.workspace_id } else r))
            a
  unfolding update_database
  update_database_iff r a =
      IsSaved-iff E c w "failed to unmarshal database response" "/api/v1/databases/update"
        decode_database_response not_ok _ a

  save_backup_config_iff :
      (r : BackupConfigRequest) (a : BackupConfigResponse)
      → ((save_backup_config E c r w).0 ≡ ok a)
        ↔ IsSaved E c w "/api/v1/backup-configs/save" not_ok decode_backup_config_response
            (encode_backup_config_request r)
            a
  unfolding save_backup_config
  save_backup_config_iff r a =
      IsSaved-iff E c w "failed to unmarshal backup config response" "/api/v1/backup-configs/save"
        decode_backup_config_response not_ok _ a

  save_healthcheck_config_iff :
      (r : HealthcheckConfigRequest) (a : HealthcheckConfigResponse)
      → ((save_healthcheck_config E c r w).0 ≡ ok a)
        ↔ IsSaved E c w "/api/v1/healthcheck-config" not_ok decode_healthcheck_config_response
            (encode_healthcheck_config_request r)
            a
  unfolding save_healthcheck_config
  save_healthcheck_config_iff r a =
      IsSaved-iff E c w "failed to unmarshal healthcheck config response"
        "/api/v1/healthcheck-config" decode_healthcheck_config_response not_ok _ a

  get_storage_iff :
      (id : String) (o : Option StorageResponse)
      → ((get_storage E c id w).0 ≡ ok o)
        ↔ IsRead E c w ("/api/v1/storages/" <> id) decode_storage_response o
  unfolding get_storage
  get_storage_iff id o =
      IsRead-iff E c w "failed to unmarshal storage response" ("/api/v1/storages/" <> id)
        decode_storage_response o

  get_notifier_iff :
      (id : String) (o : Option NotifierResponse)
      → ((get_notifier E c id w).0 ≡ ok o)
        ↔ IsRead E c w ("/api/v1/notifiers/" <> id) decode_notifier_response o
  unfolding get_notifier
  get_notifier_iff id o =
      IsRead-iff E c w "failed to unmarshal notifier response" ("/api/v1/notifiers/" <> id)
        decode_notifier_response o

  get_database_iff :
      (id : String) (o : Option DatabaseResponse)
      → ((get_database E c id w).0 ≡ ok o)
        ↔ IsRead E c w ("/api/v1/databases/" <> id) decode_database_response o
  unfolding get_database
  get_database_iff id o =
      IsRead-iff E c w "failed to unmarshal database response" ("/api/v1/databases/" <> id)
        decode_database_response o

  get_backup_config_iff :
      (id : String) (o : Option BackupConfigResponse)
      → ((get_backup_config E c id w).0 ≡ ok o)
        ↔ IsRead E c w ("/api/v1/backup-configs/database/" <> id) decode_backup_config_response o
  unfolding get_backup_config
  get_backup_config_iff id o =
      IsRead-iff E c w "failed to unmarshal backup config response"
        ("/api/v1/backup-configs/database/" <> id) decode_backup_config_response o

  get_healthcheck_config_iff :
      (id : String) (o : Option HealthcheckConfigResponse)
      → ((get_healthcheck_config E c id w).0 ≡ ok o)
        ↔ IsRead E c w ("/api/v1/healthcheck-config/" <> id) decode_healthcheck_config_response o
  unfolding get_healthcheck_config
  get_healthcheck_config_iff id o =
      IsRead-iff E c w "failed to unmarshal healthcheck config response"
        ("/api/v1/healthcheck-config/" <> id) decode_healthcheck_config_response o

  -- A method that saves something returns a value exactly if the URL can be parsed and the answer to
  -- the POST of the encoded request, sent now, has the status 200 (or 201, for the creation of a
  -- database) and a body that is decoded to this value. The request has the workspace of the client
  -- if it has a workspace and names none. This is so for Storages, Notifiers, the creation and the
  -- update of databases, backup configurations and health checks.
  pub saves_iff :
      ((r : StorageRequest) (a : StorageResponse)
        → ((save_storage E c r w).0 ≡ ok a)
          ↔ IsSaved E c w "/api/v1/storages" not_ok decode_storage_response
              (encode_storage_request
                (if r.workspace_id == "" then record r { workspace_id = c.workspace_id } else r))
              a)
      × ((r : NotifierRequest) (a : NotifierResponse)
          → ((save_notifier E c r w).0 ≡ ok a)
            ↔ IsSaved E c w "/api/v1/notifiers" not_ok decode_notifier_response
                (encode_notifier_request
                  (if r.workspace_id == "" then record r { workspace_id = c.workspace_id } else r))
                a)
      × ((r : DatabaseRequest) (a : DatabaseResponse)
          → ((create_database E c r w).0 ≡ ok a)
            ↔ IsSaved E c w "/api/v1/databases/create" not_created decode_database_response
                (encode_database_request
                  (if r.workspace_id == "" then record r { workspace_id = c.workspace_id } else r))
                a)
      × ((r : DatabaseRequest) (a : DatabaseResponse)
          → ((update_database E c r w).0 ≡ ok a)
            ↔ IsSaved E c w "/api/v1/databases/update" not_ok decode_database_response
                (encode_database_request
                  (if r.workspace_id == "" then record r { workspace_id = c.workspace_id } else r))
                a)
      × ((r : BackupConfigRequest) (a : BackupConfigResponse)
          → ((save_backup_config E c r w).0 ≡ ok a)
            ↔ IsSaved E c w "/api/v1/backup-configs/save" not_ok decode_backup_config_response
                (encode_backup_config_request r)
                a)
      × ((r : HealthcheckConfigRequest) (a : HealthcheckConfigResponse)
          → ((save_healthcheck_config E c r w).0 ≡ ok a)
            ↔ IsSaved E c w "/api/v1/healthcheck-config" not_ok decode_healthcheck_config_response
                (encode_healthcheck_config_request r)
                a)
  saves_iff = (
    save_storage_iff, save_notifier_iff, create_database_iff, update_database_iff,
    save_backup_config_iff, save_healthcheck_config_iff,
  )

  -- A method that reads something returns a value exactly if the URL can be parsed and the answer to
  -- the GET, sent now, has the status 200 and a body that is decoded to this value. It returns nil
  -- without an error exactly if the URL can be parsed and the answer has the status 404, or the
  -- status 400 and an error that contains "record not found". This is so for Storages, Notifiers,
  -- databases, backup configurations and health checks.
  pub reads_iff :
      ((id : String) (o : Option StorageResponse)
        → ((get_storage E c id w).0 ≡ ok o)
          ↔ IsRead E c w ("/api/v1/storages/" <> id) decode_storage_response o)
      × ((id : String) (o : Option NotifierResponse)
          → ((get_notifier E c id w).0 ≡ ok o)
            ↔ IsRead E c w ("/api/v1/notifiers/" <> id) decode_notifier_response o)
      × ((id : String) (o : Option DatabaseResponse)
          → ((get_database E c id w).0 ≡ ok o)
            ↔ IsRead E c w ("/api/v1/databases/" <> id) decode_database_response o)
      × ((id : String) (o : Option BackupConfigResponse)
          → ((get_backup_config E c id w).0 ≡ ok o)
            ↔ IsRead E c w
                ("/api/v1/backup-configs/database/" <> id)
                decode_backup_config_response
                o)
      × ((id : String) (o : Option HealthcheckConfigResponse)
          → ((get_healthcheck_config E c id w).0 ≡ ok o)
            ↔ IsRead E c w
                ("/api/v1/healthcheck-config/" <> id)
                decode_healthcheck_config_response
                o)
  reads_iff = (
    get_storage_iff, get_notifier_iff, get_database_iff, get_backup_config_iff,
    get_healthcheck_config_iff,
  )
