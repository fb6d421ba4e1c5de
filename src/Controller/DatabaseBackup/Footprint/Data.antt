-- ===== src/Controller/DatabaseBackup/Footprint/Data.antt =====
-- The calls to the outside that a reconciliation of a DatabaseBackup can make.
use databasus_operator.Prelude.{
  String, ◌<>◌, ◌==◌, ◌≡◌, true, false, not, none, some, Option, List, if◌then◌else◌,
}
use databasus_operator.Api.DatabaseBackup.{DatabaseBackup, DatabaseBackupStatus, HealthcheckSpec}
use databasus_operator.Wire.Database.{
  DatabaseRequest, DatabaseResponse, encode_database_request, decode_database_response,
}
use databasus_operator.Wire.BackupConfig.{encode_backup_config_request}
use databasus_operator.Wire.Healthcheck.{encode_healthcheck_config_request}
use databasus_operator.Effects.{
  Event, http, updated, status_updated, database_backup_object, Transport, KubeError, Env,
}
use databasus_operator.Client.Request.{DatabasusClient, request_of}
use databasus_operator.Controller.DatabaseBackup
use databasus_operator.Controller.DatabaseBackup.Resolve.{PostgresSslMaterial}
use databasus_operator.Controller.DatabaseBackup.Build.{build_database_request}
use databasus_operator.Controller.DatabaseBackup.{database_backup_finalizer}
use databasus_operator.Controller.DatabaseBackup.Wanted.{wanted_config, wanted_healthcheck}
use databasus_operator.Client.Request.Accepted.{Accepted}
use databasus_operator.Client.Saved.{not_ok, not_created}

-- The request was built for the object, from some password, SSL material and Notifiers.
pub data IsBuilt (c : DatabasusClient) (backup : DatabaseBackup) (request : DatabaseRequest)
    : Type 0 where
  is_built :
      (password : String) (ssl : PostgresSslMaterial) (ids : List String)
      → build_database_request c backup password ssl ids ≡ some request
      → IsBuilt c backup request

-- A request that names no workspace is sent with that of the client.
abbrev pub with_workspace : DatabasusClient → DatabaseRequest → DatabaseRequest
with_workspace c r = if r.workspace_id == "" then record r { workspace_id = c.workspace_id } else r

-- An event of the reconciliation of `backup`, with the identifier that the answer to the creation or
-- the update gives, if it gives one. It is being deleted and has the finalizer, and its
-- record is deleted or the finalizer removed; or it is not and gets the finalizer; or it has it,
-- and, unless it asks for physical backups, its record is created (if it has no identifier yet)
-- or updated (if it has one) as its specification says, the backup and health check
-- configurations of its specification are saved under that identifier, and the record with it is
-- read; or its status is written.
pub data Effect {S : Type 0} (E : Env S) (c : DatabasusClient) (backup : DatabaseBackup)
    (id : String) : Event → Type 0 where
  deletes :
      (t : Transport)
      → not (E.is_zero_time backup.metadata.deletion_timestamp) ≡ true
      → not (E.contains_finalizer backup.metadata database_backup_finalizer) ≡ false
      → (backup.status.database_id == "") ≡ false
      → Effect E c backup id
          (http (request_of c "DELETE" ("/api/v1/databases/" <> backup.status.database_id) none) t)
  releases :
      (r : Option KubeError)
      → not (E.is_zero_time backup.metadata.deletion_timestamp) ≡ true
      → not (E.contains_finalizer backup.metadata database_backup_finalizer) ≡ false
      → Effect E c backup id (
          updated
            (database_backup_object (record backup {
              metadata = E.remove_finalizer backup.metadata database_backup_finalizer;
            }))
            r)
  claims :
      (r : Option KubeError)
      → not (E.is_zero_time backup.metadata.deletion_timestamp) ≡ false
      → not (E.contains_finalizer backup.metadata database_backup_finalizer) ≡ true
      → Effect E c backup id (
          updated
            (database_backup_object (record backup {
              metadata = E.add_finalizer backup.metadata database_backup_finalizer;
            }))
            r)
  creates :
      (t : Transport) (request : DatabaseRequest)
      → not (E.is_zero_time backup.metadata.deletion_timestamp) ≡ false
      → not (E.contains_finalizer backup.metadata database_backup_finalizer) ≡ false
      → DatabaseBackup.is_physical backup.spec.database.postgresql ≡ false
      → (backup.status.database_id == "") ≡ true
      → IsBuilt c backup request
      → ((a : DatabaseResponse) → Accepted not_created decode_database_response a t → a.id ≡ id)
      → Effect E c backup id (
          http
            (request_of c "POST" "/api/v1/databases/create"
              (some (encode_database_request (with_workspace c request))))
            t)
  updates :
      (t : Transport) (request : DatabaseRequest)
      → not (E.is_zero_time backup.metadata.deletion_timestamp) ≡ false
      → not (E.contains_finalizer backup.metadata database_backup_finalizer) ≡ false
      → DatabaseBackup.is_physical backup.spec.database.postgresql ≡ false
      → (backup.status.database_id == "") ≡ false
      → IsBuilt c backup request
      → ((a : DatabaseResponse) → Accepted not_ok decode_database_response a t → a.id ≡ id)
      → Effect E c backup id (
          http
            (request_of c "POST" "/api/v1/databases/update" (
              some (
                encode_database_request
                  (with_workspace c (record request { id = backup.status.database_id })))))
            t)
  configures :
      (t : Transport) (storage_id : String)
      → not (E.is_zero_time backup.metadata.deletion_timestamp) ≡ false
      → not (E.contains_finalizer backup.metadata database_backup_finalizer) ≡ false
      → DatabaseBackup.is_physical backup.spec.database.postgresql ≡ false
      → Effect E c backup id (
          http
            (request_of c "POST" "/api/v1/backup-configs/save"
              (some (encode_backup_config_request (wanted_config backup.spec id storage_id))))
            t)
  monitors :
      (t : Transport) (hc : HealthcheckSpec)
      → not (E.is_zero_time backup.metadata.deletion_timestamp) ≡ false
      → not (E.contains_finalizer backup.metadata database_backup_finalizer) ≡ false
      → DatabaseBackup.is_physical backup.spec.database.postgresql ≡ false
      → backup.spec.healthcheck ≡ some hc
      → Effect E c backup id (
          http
            (request_of c "POST" "/api/v1/healthcheck-config"
              (some (encode_healthcheck_config_request (wanted_healthcheck hc id))))
            t)
  refreshes :
      (t : Transport)
      → not (E.is_zero_time backup.metadata.deletion_timestamp) ≡ false
      → not (E.contains_finalizer backup.metadata database_backup_finalizer) ≡ false
      → DatabaseBackup.is_physical backup.spec.database.postgresql ≡ false
      → Effect E c backup id (http (request_of c "GET" ("/api/v1/databases/" <> id) none) t)
  reports :
      (r : Option KubeError) (status : DatabaseBackupStatus)
      → not (E.is_zero_time backup.metadata.deletion_timestamp) ≡ false
      → not (E.contains_finalizer backup.metadata database_backup_finalizer) ≡ false
      → Effect E c backup id
          (status_updated (database_backup_object (record backup { status = status })) r)
