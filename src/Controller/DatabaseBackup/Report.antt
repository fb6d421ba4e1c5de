-- ===== src/Controller/DatabaseBackup/Report.antt =====
-- How a synchronisation of a DatabaseBackup ends.
use databasus_operator.Prelude.{
  ℕ, String, ◌==◌, ◌≡◌, ◌≢◌, refl, Option, none, some, List, ◌∷◌, if◌then◌else◌,
}
use databasus_operator.Api.Meta.{SecretKeyRef}
use databasus_operator.Api.DatabaseBackup.{DatabaseBackup}
use databasus_operator.Wire.Database.{DatabaseRequest, DatabaseResponse}
use databasus_operator.Effects.{
  KubeError, Res, ok, err, error_text, Event, status_updated, database_backup_object, World, Env,
  handle_some,
}
use databasus_operator.Effects.Plain.{◌>>=◌}
use databasus_operator.Effects.Fallible
use databasus_operator.Effects.Returns.{Returns, Returns-if, return_rules}
use databasus_operator.Client.Request.{DatabasusClient}
use databasus_operator.Controller.Outcome.{Outcome, returned}
use databasus_operator.Controller.DatabaseBackup
use databasus_operator.Controller.Written.{after_write, unready_backup, ready_backup}
use databasus_operator.Controller.DatabaseBackup.Status.{set_ready_condition}
use databasus_operator.Controller.DatabaseBackup.Observed.{seen, refreshed-ready}
use databasus_operator.Client.Database.{get_database}
use databasus_operator.Controller.DatabaseBackup.Resolve.{
  PostgresSslMaterial, password_ref, resolve_database_password,
}
use databasus_operator.Controller.DatabaseBackup.Total.{ref-built}

-- The seconds to the next turn, for the reason of a failure.
abbrev pub retry_after : String → ℕ
retry_after reason =
    if reason == "DependencyNotReady"
    then 10
    else if reason == "UnsupportedBackupType"
    then 0
    else 30

-- The object, with another identifier of its database.
abbrev pub with_id : DatabaseBackup → String → DatabaseBackup
with_id o id = record o { status = record o.status { database_id = id } }

-- The last call writes the status: either the condition Ready is set to False with a reason, of the
-- rest at most the identifier is changed, and the next turn is as the reason says; or the
-- condition Ready is set to True, with the identifier, what the API reported and the generation, and
-- the next turn is in 60 seconds, unless the write failed.
pub data IsReported {S : Type 0} (E : Env S) (o : DatabaseBackup)
    : Outcome → List Event → Type 0 where
  failed :
      (id reason message : String) (now : ℕ) (r : Option KubeError) {old : List Event}
      → IsReported E o (returned (retry_after reason) none) (
          status_updated (database_backup_object (unready_backup E o id now reason message)) r
          ∷ old)
  succeeded :
      (id : String) (got : Option DatabaseResponse) (now : ℕ) (r : Option KubeError)
      {old : List Event}
      → IsReported E o
          (after_write 60 r)
          (status_updated (database_backup_object (ready_backup E o id got now)) r ∷ old)

module _ {S : Type 0} (E : Env S) (c : DatabasusClient) (o : DatabaseBackup) where
  report-IsReported :
      (id reason message : String)
      → Returns (IsReported E o) (
          DatabaseBackup.Status.report E
            (with_id o id)
            reason
            message
            (returned (retry_after reason) none))
  unfolding DatabaseBackup.Status.report set_ready_condition ◌>>=◌
  report-IsReported id reason message = record { at = λ w. failed id reason message _ _ }

  refresh_status-IsReported :
      (id : String) → Returns (IsReported E o) (DatabaseBackup.refresh_status E c (with_id o id) id)
  unfolding DatabaseBackup.refresh_status DatabaseBackup.Status.report_success ◌>>=◌
  refresh_status-IsReported id = record {
    at = λ w.
        let r = (get_database E c id w).0 in
        rw (refreshed-ready E o id r (E.now (get_database E c id w).1.state).0)
          (succeeded id (seen r) _ _);
  }

  save_healthcheck-IsReported :
      (id : String)
      → Returns (IsReported E o) (DatabaseBackup.save_healthcheck E c (with_id o id) id)
  unfolding DatabaseBackup.save_healthcheck DatabaseBackup.Status.report_failure
  save_healthcheck-IsReported id =
      search (return_rules, report-IsReported id "HealthcheckSyncFailed", refresh_status-IsReported)
        depth 10

  save_configs-IsReported :
      (storage_id id : String)
      → Returns (IsReported E o) (DatabaseBackup.save_configs E c o storage_id id)
  unfolding DatabaseBackup.save_configs DatabaseBackup.Status.report_failure
  save_configs-IsReported storage_id id =
      search
        (return_rules, report-IsReported id "BackupConfigSyncFailed", save_healthcheck-IsReported)
        depth 10

  same_report-IsReported :
      (reason message : String)
      → Returns
          (IsReported E o)
          (DatabaseBackup.Status.report E o reason message (returned (retry_after reason) none))
  same_report-IsReported = report-IsReported o.status.database_id

  sync_database-IsReported :
      (storage_id : String) (built : Option DatabaseRequest)
      → built ≢ none
      → Returns (IsReported E o) (DatabaseBackup.sync_database E c o storage_id built)
  unfolding DatabaseBackup.sync_database DatabaseBackup.Status.report_failure handle_some
  sync_database-IsReported storage_id none there = absurd (there refl)
  sync_database-IsReported storage_id (some r) there =
      search (return_rules, same_report-IsReported "APISyncFailed", save_configs-IsReported)

  secrets-IsReported :
      (storage_id : String) (ids : List String) (r : Res SecretKeyRef)
      → password_ref o.spec.database ≡ r
      → Returns (IsReported E o) (DatabaseBackup.resolve_secrets_and_sync E c o storage_id ids)
  unfolding DatabaseBackup.resolve_secrets_and_sync DatabaseBackup.Status.report_failure
  secrets-IsReported storage_id ids (ok ref) h =
      search
        (
          return_rules,
          sync_database-IsReported,
          same_report-IsReported "SecretResolutionFailed",
          (λ (password : String) (ssl : PostgresSslMaterial). ref-built c o password ssl ids ref h),
        )
        depth 12
  secrets-IsReported storage_id ids (err e) h = record {
    at = λ w.
        unfold resolve_database_password ◌>>=◌ Fallible.◌>>=◌ in
        rw h ((same_report-IsReported "SecretResolutionFailed" (error_text e)).at w);
  }

  physical-IsReported :
      (storage_id : String) (ids : List String)
      → Returns (IsReported E o) (DatabaseBackup.reject_physical E c o storage_id ids)
  unfolding DatabaseBackup.reject_physical
  physical-IsReported storage_id ids =
      Returns-if _ _ _ (same_report-IsReported "UnsupportedBackupType" _)
        (secrets-IsReported storage_id ids _ refl)

  notifiers-IsReported :
      (storage_id : String)
      → Returns (IsReported E o) (DatabaseBackup.resolve_notifiers_and_sync E c o storage_id)
  unfolding DatabaseBackup.resolve_notifiers_and_sync
  notifiers-IsReported storage_id =
      search (return_rules, physical-IsReported, same_report-IsReported "DependencyNotReady")

  sync-Returns : Returns (IsReported E o) (DatabaseBackup.sync E c o)
  unfolding DatabaseBackup.sync
  sync-Returns =
      search (return_rules, notifiers-IsReported, same_report-IsReported "DependencyNotReady")

  -- A synchronisation of a DatabaseBackup, which is what `Reconcile` does after the finalizer,
  -- always ends with a write of the status, whatever the outside answers. Either Ready is set to
  -- False with a reason and a text, of the rest of the object at most the identifier of the
  -- database is changed, and the next turn is in 10 seconds for a dependency that is not ready,
  -- not planned for physical backups, and in 30 seconds for another reason. Or Ready is set to
  -- True, together with an identifier, what a read of the database changes in the status, and the
  -- generation of the object; then the next turn is in 60 seconds, unless the write fails.
  pub database_backup_sync-IsReported :
      (w : World S)
      → IsReported E o (DatabaseBackup.sync E c o w).0 (DatabaseBackup.sync E c o w).1.log
  database_backup_sync-IsReported = sync-Returns.at
