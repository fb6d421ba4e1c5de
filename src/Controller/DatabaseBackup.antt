-- ===== src/Controller/DatabaseBackup.antt =====
-- internal/controller/databasebackup_controller.go: `Reconcile`, one function for each of its
-- blocks, and in the modules below what it resolves and builds.
pub mod Status
pub mod Resolve
pub mod Build
pub mod Footprint
pub mod Total
pub mod Report
pub mod Physical
pub mod Sections
pub mod References
pub mod Success
pub mod Observed
pub mod Wanted
use databasus_operator.Prelude.{
  ℕ, String, ◌==◌, Bool, true, false, Option, none, some, List, if◌then◌else◌, not,
}
use databasus_operator.Api.Meta.{NamespacedName, Condition, condition_true, condition_false}
use databasus_operator.Api.DatabaseBackup.{
  DatabaseBackup, DatabaseBackupStatus, PostgresqlDatabaseSpec, HealthcheckSpec,
}
use databasus_operator.Wire.Database.{DatabaseRequest, DatabaseResponse}
use databasus_operator.Effects.{
  KubeError, Error, text_error, kube_error, error_text, Res, ok, err, Got, found, get_error, Env, M,
  pure, handle, handle_got, handle_some, clock, fetch_database_backup, update, update_status,
  database_backup_object,
}
use databasus_operator.Effects.Plain.{◌>>=◌, ◌>>◌}
use databasus_operator.Client.Request.{DatabasusClient}
use databasus_operator.Client.Database.{
  create_database, update_database, get_database, delete_database,
}
use databasus_operator.Client.BackupConfig.{save_backup_config}
use databasus_operator.Client.Healthcheck.{save_healthcheck_config}
use databasus_operator.Controller.Outcome.{Outcome, returned, panicked, finished, requeue}
use Resolve.{
  resolve_storage_ref, resolve_notifier_refs, resolve_database_password, resolve_postgres_ssl,
}
use Status.{report, report_failure, report_success, refreshed}
use Build.{build_database_request, build_backup_config_request, build_healthcheck_request}

abbrev pub database_backup_finalizer : String
database_backup_finalizer = "databasus.io/databasebackup-cleanup"

module _ {S : Type 0} (E : Env S) where
  unfoldable pub release : DatabaseBackup → M S Outcome
  release backup = do
    result ← update E (
        database_backup_object (record backup {
          metadata = E.remove_finalizer backup.metadata database_backup_finalizer;
        }))
    pure (finished result)

  unfoldable pub add_finalizer : DatabaseBackup → M S Outcome
  add_finalizer backup = do
    result ← update E (
        database_backup_object
          (record backup { metadata = E.add_finalizer backup.metadata database_backup_finalizer }))
    pure (finished result)

-- The guard against physical backups.
unfoldable pub is_physical : Option PostgresqlDatabaseSpec → Bool
is_physical none = false
is_physical (some pg) = pg.backup_type == "WAL_V1"

module _ {S : Type 0} (E : Env S) (c : DatabasusClient) where
  unfoldable pub handle_deletion : DatabaseBackup → M S Outcome
  unfolding release
  handle_deletion backup =
      if not (E.contains_finalizer backup.metadata database_backup_finalizer)
      then pure (returned 0 none)
      else if backup.status.database_id == ""
      then release E backup
      else do
        result ← delete_database E c backup.status.database_id
        handle_some result (λ e. requeue 10) (release E backup)

  unfoldable pub refresh_status : DatabaseBackup → String → M S Outcome
  unfolding refreshed report_success
  refresh_status backup id = do
    got ← get_database E c id
    report_success E (record backup { status = refreshed backup.status got })

  unfoldable pub save_healthcheck : DatabaseBackup → String → M S Outcome
  unfolding refresh_status report_failure
  save_healthcheck backup id =
      handle_some backup.spec.healthcheck
        (λ hc. do
          result ← save_healthcheck_config E c (build_healthcheck_request hc id)
          handle result (λ e. report_failure E backup "HealthcheckSyncFailed" e)
              (λ resp. refresh_status backup id))
        (refresh_status backup id)

  -- From the assignment of `Status.DatabaseID` on.
  unfoldable pub save_configs : DatabaseBackup → String → String → M S Outcome
  unfolding save_healthcheck report_failure
  save_configs backup storage_id id = do
    let known = record backup { status = record backup.status { database_id = id } }
    result ← save_backup_config E c (build_backup_config_request known id storage_id)
    handle result (λ e. report_failure E known "BackupConfigSyncFailed" e)
        (λ resp. save_healthcheck known id)

  unfoldable pub send_database : DatabaseBackup → DatabaseRequest → M S (Res DatabaseResponse)
  send_database backup request =
      if backup.status.database_id == ""
      then create_database E c request
      else update_database E c (record request { id = backup.status.database_id })

  -- From the database request to the end; `none` is a nil dereference while it is built.
  unfoldable pub sync_database : DatabaseBackup → String → Option DatabaseRequest → M S Outcome
  unfolding send_database save_configs report_failure
  sync_database backup storage_id built =
      handle_some built
        (λ request. do
          result ← send_database backup request
          handle result (λ e. report_failure E backup "APISyncFailed" e)
              (λ resp. save_configs backup storage_id resp.id))
        (pure panicked)

  unfoldable pub resolve_ssl_and_sync : DatabaseBackup → String → List String → String → M S Outcome
  unfolding sync_database report_failure
  resolve_ssl_and_sync backup storage_id notifier_ids password = do
    result ← resolve_postgres_ssl E backup
    handle result (λ e. report_failure E backup "SecretResolutionFailed" e)
        (λ ssl.
          sync_database backup storage_id
            (build_database_request c backup password ssl notifier_ids))

  unfoldable pub resolve_secrets_and_sync : DatabaseBackup → String → List String → M S Outcome
  unfolding resolve_ssl_and_sync report_failure
  resolve_secrets_and_sync backup storage_id notifier_ids = do
    result ← resolve_database_password E backup
    handle result (λ e. report_failure E backup "SecretResolutionFailed" e)
        (λ password. resolve_ssl_and_sync backup storage_id notifier_ids password)

  unfoldable pub reject_physical : DatabaseBackup → String → List String → M S Outcome
  unfolding is_physical report resolve_secrets_and_sync
  reject_physical backup storage_id notifier_ids =
      if is_physical backup.spec.database.postgresql
      then report E backup "UnsupportedBackupType"
          "backupType WAL_V1 (physical backups) is not supported yet; use PG_DUMP" (returned 0 none)
      else resolve_secrets_and_sync backup storage_id notifier_ids

  unfoldable pub resolve_notifiers_and_sync : DatabaseBackup → String → M S Outcome
  unfolding report reject_physical
  resolve_notifiers_and_sync backup storage_id = do
    result ← resolve_notifier_refs E backup.metadata.namespace backup.spec.database.notifier_refs
    handle result (λ e. report E backup "DependencyNotReady" (error_text e) (returned 10 none))
        (λ notifier_ids. reject_physical backup storage_id notifier_ids)

  -- What follows the finalizer, from the Storage reference on.
  unfoldable pub sync : DatabaseBackup → M S Outcome
  unfolding report resolve_notifiers_and_sync
  sync backup = do
    result ← resolve_storage_ref E backup.metadata.namespace backup.spec.backup.storage_ref
    handle result (λ e. report E backup "DependencyNotReady" (error_text e) (returned 10 none))
        (λ storage_id. resolve_notifiers_and_sync backup storage_id)

  unfoldable pub reconcile_database_backup : DatabaseBackup → M S Outcome
  unfolding handle_deletion add_finalizer sync
  reconcile_database_backup backup =
      if not (E.is_zero_time backup.metadata.deletion_timestamp)
      then handle_deletion backup
      else if not (E.contains_finalizer backup.metadata database_backup_finalizer)
      then add_finalizer E backup
      else sync backup

  unfoldable pub reconcile : NamespacedName → M S Outcome
  unfolding reconcile_database_backup
  reconcile key = do
    got ← fetch_database_backup E key
    handle_got got
        (λ e. pure (if E.is_not_found e then returned 0 none else returned 0 (some (kube_error e))))
        reconcile_database_backup
