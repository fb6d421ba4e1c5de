-- ===== src/System/Confirm/ForDatabaseBackup.antt =====
-- A reconciliation of a DatabaseBackup writes Ready only after its record and its configurations
-- were saved.
pub mod Calls
pub mod Stages
use databasus_operator.Prelude.{
  ℕ, String, Option, Bool-cases, Option-cases, ◌<>◌, ◌==◌, ◌≡◌, refl, Bool, true, false, not, none,
  some, inl, inr, List, ◌∷◌, if◌then◌else◌,
}
use databasus_operator.Api.Meta.{NamespacedName, condition_false}
use databasus_operator.Api.DatabaseBackup.{DatabaseBackup, DatabaseBackupStatus, HealthcheckSpec}
use databasus_operator.Wire.Database.{DatabaseRequest, DatabaseResponse}
use databasus_operator.Wire.BackupConfig.{BackupConfigRequest}
use databasus_operator.Wire.Healthcheck.{HealthcheckConfigRequest}
use databasus_operator.Effects.{
  Error, KubeError, Res, ok, err, Got, found, get_error, handle, handle_got, handle_some, reading,
  pure, kube_error, Event, http, status_updated, database_backup_object, Transport, M, World, Env,
  error_text, Res-cases,
}
use databasus_operator.Effects.Plain.{◌>>=◌}
use databasus_operator.Effects.Fallible
use databasus_operator.Effects.Guards.{
  Keeps, Keeps-pure, Keeps-if, Logs-Keeps, keep_rules, Adds-GuardedBy, handle_some-elim,
}
use databasus_operator.Effects.Logs.{Silent, Logs-reading, Logs, Logs-Silent, log_rules}
use databasus_operator.Effects.Laws.{ConditionLaws}
use databasus_operator.Client.Request.{DatabasusClient, do_request, request_of, reply_of}
use databasus_operator.Client.Request.Gone.{sent, do_request-sent, do_request-unsent}
use databasus_operator.Client.Request.Accepted.{reply-world}
use databasus_operator.Client.Database.{
  read_database, create_database, update_database, get_database, delete_database,
}
use databasus_operator.Client.BackupConfig.{save_backup_config}
use databasus_operator.Client.Healthcheck.{save_healthcheck_config}
use databasus_operator.Client.Saved.{
  create_database-IsPosted, update_database-IsPosted, save_backup_config-IsPosted,
  save_healthcheck_config-IsPosted,
}
use databasus_operator.Controller.Outcome.{Outcome, returned, panicked}
use databasus_operator.Controller.DatabaseBackup
use databasus_operator.Controller.Silent.{
  resolve_storage_ref-Silent, resolve_notifier_refs-Silent, resolve_database_password-Silent,
  resolve_postgres_ssl-Silent,
}
use databasus_operator.Controller.DatabaseBackup.Build.{
  build_healthcheck_request, build_backup_config_request,
}
use databasus_operator.System.Confirm.Guard.{
  Guard, Confirmed, Harmless, IsRecorded, created, renewed, IsConfigured, configured, IsMonitored,
  unmonitored, monitored, IsSynced, unread, read, update-Harmless, do_request-Harmless,
  false-Unready,
}
use Calls.{
  failed-Harmless, report-Harmless, report_failure-Harmless, get_database-Harmless,
  healthcheck-Harmless, config-Harmless, create-Harmless, update_database-Harmless, delete-Harmless,
  send_database-Harmless,
}
use Stages.{sync_database-Confirmed}

module _ {S : Type 0} (E : Env S) (c : DatabasusClient) (k : ConditionLaws E.kube) where
  module _ (o : DatabaseBackup) where
    report_failure-Keeps :
        (reason : String) (e : Error)
        → Keeps (Guard E c) (DatabaseBackup.Status.report_failure E o reason e)
    report_failure-Keeps reason e = Logs-Keeps _ _ (report_failure-Harmless E c k o reason e)

    report-Keeps :
        (reason message : String) (outcome : Outcome)
        → Keeps (Guard E c) (DatabaseBackup.Status.report E o reason message outcome)
    report-Keeps reason message outcome =
        Logs-Keeps _ _ (report-Harmless E c k o reason message outcome)

    Silent-Keeps : {A : Type 0} (m : M S A) → Logs Silent m → Keeps (Guard E c) m
    Silent-Keeps m k = Logs-Keeps _ m (Logs-Silent (Harmless E c) m k)

    resolve_secrets-Keeps :
        (storage_id : String) (ids : List String)
        → Keeps (Guard E c) (DatabaseBackup.resolve_secrets_and_sync E c o storage_id ids)
    unfolding DatabaseBackup.resolve_secrets_and_sync
    resolve_secrets-Keeps storage_id ids =
        search
          (
            keep_rules,
            Silent-Keeps _ (resolve_database_password-Silent E o),
            Silent-Keeps _ (resolve_postgres_ssl-Silent E o),
            sync_database-Confirmed E c k o,
            report_failure-Keeps,
          )
          depth 12

    reject_physical-Keeps :
        (storage_id : String) (ids : List String)
        → Keeps (Guard E c) (DatabaseBackup.reject_physical E c o storage_id ids)
    unfolding DatabaseBackup.reject_physical
    reject_physical-Keeps storage_id ids = search (keep_rules, resolve_secrets-Keeps, report-Keeps)

    resolve_notifiers-Keeps :
        (storage_id : String)
        → Keeps (Guard E c) (DatabaseBackup.resolve_notifiers_and_sync E c o storage_id)
    unfolding DatabaseBackup.resolve_notifiers_and_sync
    resolve_notifiers-Keeps storage_id =
        search
          (
            keep_rules,
            Silent-Keeps _
                (resolve_notifier_refs-Silent E o.metadata.namespace o.spec.database.notifier_refs),
            reject_physical-Keeps,
            report-Keeps,
          )
          depth 12

    sync-Keeps : Keeps (Guard E c) (DatabaseBackup.sync E c o)
    unfolding DatabaseBackup.sync
    sync-Keeps =
        search
          (
            keep_rules,
            Silent-Keeps _
                (resolve_storage_ref-Silent E o.metadata.namespace o.spec.backup.storage_ref),
            resolve_notifiers-Keeps,
            report-Keeps,
          )
          depth 12

    deletion-Harmless : Logs (Harmless E c) (DatabaseBackup.handle_deletion E c o)
    unfolding DatabaseBackup.handle_deletion
    deletion-Harmless = search (log_rules, delete-Harmless E c k, update-Harmless) depth 12

    add_finalizer-Harmless : Logs (Harmless E c) (DatabaseBackup.add_finalizer E o)
    unfolding DatabaseBackup.add_finalizer
    add_finalizer-Harmless = search (log_rules, update-Harmless)

    object-Keeps : Keeps (Guard E c) (DatabaseBackup.reconcile_database_backup E c o)
    unfolding DatabaseBackup.reconcile_database_backup
    object-Keeps =
        Keeps-if _ _ _ (Logs-Keeps _ _ deletion-Harmless)
          (Keeps-if _ _ _ (Logs-Keeps _ _ add_finalizer-Harmless) sync-Keeps)

  reading-Keeps : {A : Type 0} (call : S → A × S) → Keeps (Guard E c) (reading call)
  reading-Keeps call = Logs-Keeps _ _ (Logs-reading call)

  reconcile-Keeps : (key : NamespacedName) → Keeps (Guard E c) (DatabaseBackup.reconcile E c key)
  unfolding DatabaseBackup.reconcile
  reconcile-Keeps key = search (keep_rules, reading-Keeps, object-Keeps)

  pub reconcile-Confirmed :
      (key : NamespacedName) (w : World S)
      → Confirmed E c w.log
      → Confirmed E c (DatabaseBackup.reconcile E c key w).1.log
  reconcile-Confirmed key = (reconcile-Keeps key).at
