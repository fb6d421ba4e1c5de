-- ===== src/Controller/DatabaseBackup/Status.antt =====
-- internal/controller/databasebackup_controller.go: the blocks of `Reconcile` that change the status,
-- and `setReadyCondition`.
use databasus_operator.Prelude.{ℕ, String, Option, none, some}
use databasus_operator.Api.Meta.{Condition, condition_true, condition_false}
use databasus_operator.Api.DatabaseBackup.{DatabaseBackup, DatabaseBackupStatus}
use databasus_operator.Wire.Database.{DatabaseResponse}
use databasus_operator.Effects.{
  KubeError, Error, kube_error, error_text, Res, ok, err, Env, M, pure, clock, update_status,
  database_backup_object,
}
use databasus_operator.Effects.Plain.{◌>>=◌, ◌>>◌}
use databasus_operator.Controller.Outcome.{Outcome, returned}

-- The end of `Reconcile`: the next turn after 60 seconds, or the error of the status update.
abbrev pub settled : Option KubeError → Outcome
settled none = returned 60 none
settled (some e) = returned 0 (some (kube_error e))

module _ {S : Type 0} (E : Env S) where
  -- `metav1.Now()` is the argument `now`.
  unfoldable pub set_ready_condition :
      DatabaseBackup → ℕ → String → String → String → DatabaseBackup
  set_ready_condition backup now status reason message =
      let condition : Condition = record {
        type = "Ready";
        status = status;
        observed_generation = backup.metadata.generation;
        last_transition_time = now;
        reason = reason;
        message = message;
      } in
      record backup {
        status = record backup.status {
          conditions = E.set_status_condition backup.status.conditions condition;
        };
      }

  -- A failed step: the condition says so, and the result of the status update is ignored. The
  -- caller returns.
  unfoldable pub report : DatabaseBackup → String → String → Outcome → M S Outcome
  unfolding set_ready_condition
  report backup reason message outcome = do
    now ← clock E
    update_status E
        (database_backup_object (set_ready_condition backup now condition_false reason message))
    pure outcome

  unfoldable pub report_failure : DatabaseBackup → String → Error → M S Outcome
  unfolding report
  report_failure backup reason e = report backup reason (error_text e) (returned 30 none)

  -- "Set success status"
  unfoldable pub report_success : DatabaseBackup → M S Outcome
  unfolding set_ready_condition
  report_success backup = do
    let observed = record backup {
      status = record backup.status { observed_generation = backup.metadata.generation };
    }
    now ← clock E
    result ← update_status E (
        database_backup_object (
          set_ready_condition observed now condition_true "Synced"
            "DatabaseBackup synced to databasus"))
    pure (settled result)

-- A pointer that is assigned only where it is not nil.
abbrev assigned : {A : Type 0} → A → Option A → A
assigned old none = old
assigned old (some new) = new

abbrev assigned_time : {A : Type 0} → Option A → Option A → Option A
assigned_time old none = old
assigned_time old (some new) = some new

-- "Refresh status from databasus": an error or a missing database changes nothing.
unfoldable pub refreshed :
    DatabaseBackupStatus → Res (Option DatabaseResponse) → DatabaseBackupStatus
refreshed status (err e) = status
refreshed status (ok none) = status
refreshed status (ok (some db)) = record status {
  health_status = assigned status.health_status db.health_status;
  last_backup_time = assigned_time status.last_backup_time db.last_backup_time;
  last_backup_error_message =
      assigned status.last_backup_error_message db.last_backup_error_message;
}
