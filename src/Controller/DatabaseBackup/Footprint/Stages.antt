-- ===== src/Controller/DatabaseBackup/Footprint/Stages.antt =====
-- The stages of a reconciliation of a DatabaseBackup stay within its footprint.
use databasus_operator.Prelude.{String, ◌==◌, ◌≡◌, true, false, not, some}
use databasus_operator.Api.DatabaseBackup.{DatabaseBackup, DatabaseBackupStatus, HealthcheckSpec}
use databasus_operator.Effects.{http, Transport, Env, Error, error_text}
use databasus_operator.Effects.Logs.{Logs, log_rules}
use databasus_operator.Client.Request.{DatabasusClient, request_of}
use databasus_operator.Client.Database.{get_database, delete_database}
use databasus_operator.Client.BackupConfig.{save_backup_config}
use databasus_operator.Client.Healthcheck.{save_healthcheck_config}
use databasus_operator.Controller.DatabaseBackup
use databasus_operator.Wire.BackupConfig.{encode_backup_config_request}
use databasus_operator.Controller.DatabaseBackup.Build.{
  build_backup_config_request, build_healthcheck_request,
}
use databasus_operator.Controller.DatabaseBackup.{database_backup_finalizer}
use databasus_operator.Controller.DatabaseBackup.Status.{set_ready_condition}
use databasus_operator.Controller.Outcome.{Outcome}
use databasus_operator.Controller.DatabaseBackup.Footprint.Data.{
  Effect, deletes, releases, configures, monitors, refreshes, reports,
}

module _ {S : Type 0} (E : Env S) (c : DatabasusClient) (backup : DatabaseBackup)
    (id : String) where
  module _ (deleting : not (E.is_zero_time backup.metadata.deletion_timestamp) ≡ true) where
    delete-Effect :
        not (E.contains_finalizer backup.metadata database_backup_finalizer) ≡ false
        → (backup.status.database_id == "") ≡ false
        → Logs (Effect E c backup id) (delete_database E c backup.status.database_id)
    unfolding delete_database
    delete-Effect owned known = search (log_rules, deletes)

    pub handle_deletion-Effect :
        Logs (Effect E c backup id) (DatabaseBackup.handle_deletion E c backup)
    unfolding DatabaseBackup.handle_deletion
    handle_deletion-Effect = search (log_rules, delete-Effect, releases) depth 12

  module _ (live : not (E.is_zero_time backup.metadata.deletion_timestamp) ≡ false)
      (owned : not (E.contains_finalizer backup.metadata database_backup_finalizer) ≡ false) where
    pub report-Effect :
        (status : DatabaseBackupStatus) (reason message : String) (outcome : Outcome)
        → Logs (Effect E c backup id) (
            DatabaseBackup.Status.report E
              (record backup { status = status })
              reason
              message
              outcome)
    unfolding DatabaseBackup.Status.report set_ready_condition
    report-Effect status reason message outcome = search (log_rules, reports)

    pub report_failure-Effect :
        (status : DatabaseBackupStatus) (reason : String) (e : Error)
        → Logs
            (Effect E c backup id)
            (DatabaseBackup.Status.report_failure E (record backup { status = status }) reason e)
    unfolding DatabaseBackup.Status.report_failure
    report_failure-Effect status reason e = report-Effect status reason (error_text e) _

    report_success-Effect :
        (status : DatabaseBackupStatus)
        → Logs
            (Effect E c backup id)
            (DatabaseBackup.Status.report_success E (record backup { status = status }))
    unfolding DatabaseBackup.Status.report_success set_ready_condition
    report_success-Effect status = search (log_rules, reports)

    module _ (logical : DatabaseBackup.is_physical backup.spec.database.postgresql ≡ false) where
      get-Effect : Logs (Effect E c backup id) (get_database E c id)
      unfolding get_database
      get-Effect = search (log_rules, refreshes)

      -- The identifier in the status does not matter for the configuration.
      configured-Effect :
          (status : DatabaseBackupStatus) (storage_id : String) (t : Transport)
          → Effect E c backup id (
              http
                (request_of c "POST" "/api/v1/backup-configs/save" (
                  some (
                    encode_backup_config_request (
                      build_backup_config_request
                        (record backup { status = status })
                        id
                        storage_id))))
                t)
      unfolding build_backup_config_request
      configured-Effect status storage_id t = configures t storage_id live owned logical

      config-Effect :
          (status : DatabaseBackupStatus) (storage_id : String)
          → Logs (Effect E c backup id) (
              save_backup_config E c
                (build_backup_config_request (record backup { status = status }) id storage_id))
      unfolding save_backup_config
      config-Effect status storage_id = search (log_rules, configured-Effect status storage_id)

      healthcheck-Effect :
          (hc : HealthcheckSpec)
          → backup.spec.healthcheck ≡ some hc
          → Logs
              (Effect E c backup id)
              (save_healthcheck_config E c (build_healthcheck_request hc id))
      unfolding save_healthcheck_config build_healthcheck_request
      healthcheck-Effect hc e = search (log_rules, monitors)

      refresh_status-Effect :
          (status : DatabaseBackupStatus)
          → Logs
              (Effect E c backup id)
              (DatabaseBackup.refresh_status E c (record backup { status = status }) id)
      unfolding DatabaseBackup.refresh_status
      refresh_status-Effect status = search (log_rules, get-Effect, report_success-Effect)

      save_healthcheck-Effect :
          (status : DatabaseBackupStatus)
          → Logs
              (Effect E c backup id)
              (DatabaseBackup.save_healthcheck E c (record backup { status = status }) id)
      unfolding DatabaseBackup.save_healthcheck
      save_healthcheck-Effect status =
          search (log_rules, healthcheck-Effect, refresh_status-Effect, report_failure-Effect) depth
            8

      pub save_configs-Effect :
          (storage_id : String)
          → Logs (Effect E c backup id) (DatabaseBackup.save_configs E c backup storage_id id)
      unfolding DatabaseBackup.save_configs
      save_configs-Effect storage_id =
          search (log_rules, config-Effect, save_healthcheck-Effect, report_failure-Effect) depth 8
