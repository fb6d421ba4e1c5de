-- ===== src/Controller/DatabaseBackup/Footprint.antt =====
-- The footprint of a reconciliation of a DatabaseBackup: every call that it can make to the outside.
pub mod Data
mod Stages
mod Turn
use databasus_operator.Prelude.{
  ℕ, String, ◌<>◌, ◌==◌, ◌≡◌, true, false, not, none, some, Option, List, if◌then◌else◌, arith,
}
use databasus_operator.Api.DatabaseBackup.{DatabaseBackup, DatabaseBackupStatus, HealthcheckSpec}
use databasus_operator.Wire.Database.{DatabaseRequest, encode_database_request}
use databasus_operator.Wire.BackupConfig.{BackupConfigRequest, encode_backup_config_request}
use databasus_operator.Wire.Healthcheck.{
  HealthcheckConfigRequest, encode_healthcheck_config_request,
}
use databasus_operator.Effects.{
  Event, http, updated, status_updated, database_backup_object, Transport, KubeError, Env, Error,
  error_text,
}
use databasus_operator.Effects.Logs.{Logs, Logs-Silent, log_rules}
use databasus_operator.Client.Request.{DatabasusClient, request_of}
use databasus_operator.Client.Database.{
  create_database, update_database, get_database, delete_database,
}
use databasus_operator.Client.BackupConfig.{save_backup_config}
use databasus_operator.Client.Healthcheck.{save_healthcheck_config}
use databasus_operator.Controller.DatabaseBackup
use databasus_operator.Controller.DatabaseBackup.{database_backup_finalizer}
use databasus_operator.Controller.DatabaseBackup.Status.{set_ready_condition}
use databasus_operator.Controller.Outcome.{Outcome}
use databasus_operator.Controller.Silent.{
  resolve_storage_ref-Silent, resolve_notifier_refs-Silent, resolve_database_password-Silent,
  resolve_postgres_ssl-Silent,
}
pub use Data.{
  IsBuilt, is_built, with_workspace, Effect, deletes, releases, claims, creates, updates,
  configures, monitors, refreshes, reports,
}
use Stages.{handle_deletion-Effect}
use Turn.{sync-Shares}
use databasus_operator.Effects.Shares.{Shares, Logs-Shares, share_rules}
use databasus_operator.Effects.Plain.{◌>>=◌}

module _ {S : Type 0} (E : Env S) (c : DatabasusClient) (backup : DatabaseBackup) where
  deletion-Shares :
      not (E.is_zero_time backup.metadata.deletion_timestamp) ≡ true
      → Shares (Effect E c backup) (DatabaseBackup.handle_deletion E c backup)
  deletion-Shares deleting = Logs-Shares "" _ (handle_deletion-Effect E c backup "" deleting)

  claim-Shares :
      not (E.is_zero_time backup.metadata.deletion_timestamp) ≡ false
      → not (E.contains_finalizer backup.metadata database_backup_finalizer) ≡ true
      → Shares (Effect E c backup) (DatabaseBackup.add_finalizer E backup)
  unfolding DatabaseBackup.add_finalizer
  claim-Shares live unowned = Logs-Shares "" _ (search (log_rules, claims))

  pub reconcile_database_backup-Effect :
      Shares (Effect E c backup) (DatabaseBackup.reconcile_database_backup E c backup)
  unfolding DatabaseBackup.reconcile_database_backup
  reconcile_database_backup-Effect =
      search (share_rules, deletion-Shares, claim-Shares, sync-Shares E c backup)
