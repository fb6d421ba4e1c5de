-- ===== src/System/Confirm/ForDatabaseBackup/Calls.antt =====
-- The calls of a reconciliation of a DatabaseBackup that write no status Ready.
use databasus_operator.Prelude.{ℕ, String, Option}
use databasus_operator.Api.Meta.{condition_false}
use databasus_operator.Api.DatabaseBackup.{DatabaseBackup}
use databasus_operator.Wire.Database.{DatabaseRequest}
use databasus_operator.Wire.BackupConfig.{BackupConfigRequest}
use databasus_operator.Wire.Healthcheck.{HealthcheckConfigRequest}
use databasus_operator.Effects.{Error, KubeError, status_updated, database_backup_object, Env}
use databasus_operator.Effects.Logs.{Logs, log_rules}
use databasus_operator.Effects.Laws.{ConditionLaws}
use databasus_operator.Client.Request.{DatabasusClient}
use databasus_operator.Client.Database.{
  create_database, update_database, get_database, delete_database,
}
use databasus_operator.Client.BackupConfig.{save_backup_config}
use databasus_operator.Client.Healthcheck.{save_healthcheck_config}
use databasus_operator.Controller.Outcome.{Outcome}
use databasus_operator.Controller.DatabaseBackup
use databasus_operator.System.Confirm.Guard.{Harmless, do_request-Harmless, false-Unready}

module _ {S : Type 0} (E : Env S) (c : DatabasusClient) (k : ConditionLaws E.kube) where
  pub failed-Harmless :
      (o : DatabaseBackup) (now : ℕ) (reason message : String) (r : Option KubeError)
      → Harmless E c (
          status_updated
            (database_backup_object
              (DatabaseBackup.Status.set_ready_condition E o now condition_false reason message))
            r)
  unfolding DatabaseBackup.Status.set_ready_condition
  failed-Harmless o now reason message r old ready =
      cc (ready, false-Unready E k o.status.conditions o.metadata.generation now reason message)

  pub report-Harmless :
      (o : DatabaseBackup) (reason message : String) (outcome : Outcome)
      → Logs (Harmless E c) (DatabaseBackup.Status.report E o reason message outcome)
  unfolding DatabaseBackup.Status.report
  report-Harmless o reason message outcome = search (log_rules, failed-Harmless)

  pub report_failure-Harmless :
      (o : DatabaseBackup) (reason : String) (e : Error)
      → Logs (Harmless E c) (DatabaseBackup.Status.report_failure E o reason e)
  unfolding DatabaseBackup.Status.report_failure
  report_failure-Harmless o reason e = report-Harmless o reason _ _

  pub get_database-Harmless : (id : String) → Logs (Harmless E c) (get_database E c id)
  unfolding get_database
  get_database-Harmless id = search (log_rules, do_request-Harmless)

  pub healthcheck-Harmless :
      (r : HealthcheckConfigRequest) → Logs (Harmless E c) (save_healthcheck_config E c r)
  unfolding save_healthcheck_config
  healthcheck-Harmless r = search (log_rules, do_request-Harmless)

  pub config-Harmless : (r : BackupConfigRequest) → Logs (Harmless E c) (save_backup_config E c r)
  unfolding save_backup_config
  config-Harmless r = search (log_rules, do_request-Harmless)

  pub create-Harmless : (r : DatabaseRequest) → Logs (Harmless E c) (create_database E c r)
  unfolding create_database
  create-Harmless r = search (log_rules, do_request-Harmless)

  pub update_database-Harmless : (r : DatabaseRequest) → Logs (Harmless E c) (update_database E c r)
  unfolding update_database
  update_database-Harmless r = search (log_rules, do_request-Harmless)

  pub delete-Harmless : (id : String) → Logs (Harmless E c) (delete_database E c id)
  unfolding delete_database
  delete-Harmless id = search (log_rules, do_request-Harmless)

  pub send_database-Harmless :
      (o : DatabaseBackup) (r : DatabaseRequest)
      → Logs (Harmless E c) (DatabaseBackup.send_database E c o r)
  unfolding DatabaseBackup.send_database
  send_database-Harmless o r = search (log_rules, create-Harmless, update_database-Harmless)
