-- ===== src/System/Once/Stages.antt =====
-- The stages of a synchronisation of a DatabaseBackup keep the creations bounded, up to the write
-- of the status at the end.
use databasus_operator.Prelude.{
  String, ◌≡◌, ◌≢◌, refl, Bool, true, false, Option, none, some, List, ◌∷◌, inl, inr, if◌then◌else◌,
}
use databasus_operator.Api.Meta.{SecretKeyRef}
use databasus_operator.Api.DatabaseBackup.{DatabaseBackup}
use databasus_operator.Wire.Database.{DatabaseRequest}
use databasus_operator.Effects.{
  KubeError, Error, Res, ok, err, Event, status_updated, database_backup_object, World, Env, M,
  handle, handle_some, Res-cases,
}
use databasus_operator.Effects.Plain.{◌>>=◌}
use databasus_operator.Effects.Fallible
use databasus_operator.Effects.Logs.{Logs, Logs-Silent, Silent}
use databasus_operator.Client.Request.{DatabasusClient}
use databasus_operator.Controller.Silent.{
  resolve_storage_ref-Silent, resolve_notifier_refs-Silent, resolve_database_password-Silent,
  resolve_postgres_ssl-Silent,
}
use databasus_operator.Controller.Outcome.{Outcome}
use databasus_operator.Controller.DatabaseBackup
use databasus_operator.Controller.DatabaseBackup.Status.{set_ready_condition, refreshed}
use databasus_operator.Controller.DatabaseBackup.Resolve.{
  PostgresSslMaterial, password_ref, resolve_database_password,
}
use databasus_operator.Controller.DatabaseBackup.Total.{ref-built}
use databasus_operator.System.Confirm.ForDatabaseBackup.Stages.{refreshed-database_id}
use databasus_operator.System.Once.Counts.{IsBounded, NoCreation, Adds-IsBounded}
use databasus_operator.System.Once.Requests.{
  get_database-NoCreation, save_healthcheck_config-NoCreation, save_backup_config-NoCreation,
  send_database-ok, send_database-err,
}

-- The last call writes the status, and the creations before it are bounded for the identifier that
-- is written.
pub data IsSettled (c : DatabasusClient) : List Event → Type 0 where
  settled :
      (o : DatabaseBackup) (r : Option KubeError) {old : List Event}
      → IsBounded c o.status.database_id old
      → IsSettled c (status_updated (database_backup_object o) r ∷ old)

-- An action that settles a log which is bounded for an identifier.
pub record Settles {S A : Type 0} (c : DatabasusClient) (id : String) (m : M S A) : Type 0 where
  pub at : (w : World S) → IsBounded c id w.log → IsSettled c (m w).1.log

module _ {S A : Type 0} (c : DatabasusClient) (id : String) where
  Settles-if :
      (b : Bool) (m n : M S A) → Settles c id m → Settles c id n → Settles c id (if b then m else n)
  Settles-if true m n km kn = km
  Settles-if false m n km kn = kn

module _ {S A B : Type 0} (c : DatabasusClient) (id : String) where
  Settles-bind :
      (m : M S A) (f : A → M S B)
      → Logs (NoCreation c) m
      → ((a : A) → Settles c id (f a))
      → Settles c id (m >>= f)
  unfolding ◌>>=◌
  Settles-bind m f km kf = record {
    at = λ w b. let (a, w') = m w in (kf a).at w' (Adds-IsBounded c id (km.at w) b);
  }

  Settles-handle :
      (r : Res A) (f : Error → M S B) (g : A → M S B)
      → ((e : Error) → Settles c id (f e))
      → ((a : A) → Settles c id (g a))
      → Settles c id (handle r f g)
  unfolding handle
  Settles-handle (err e) f g kf kg = kf e
  Settles-handle (ok a) f g kf kg = kg a

  Settles-handle_some :
      (r : Option A) (f : A → M S B) (m : M S B)
      → ((a : A) → Settles c id (f a))
      → Settles c id m
      → Settles c id (handle_some r f m)
  unfolding handle_some
  Settles-handle_some (some a) f m kf km = kf a
  Settles-handle_some none f m kf km = km

  -- An action that calls nothing, and what follows it.
  Settles-Silent :
      (m : M S A) (f : A → M S B)
      → Logs Silent m
      → ((a : A) → Settles c id (f a))
      → Settles c id (m >>= f)
  Settles-Silent m f km kf = Settles-bind m f (Logs-Silent (NoCreation c) m km) kf

ruleset settle_rules =
    (Settles-if, Settles-bind, Settles-Silent, Settles-handle, Settles-handle_some)

module _ {S : Type 0} (E : Env S) (c : DatabasusClient) where
  report-Settles :
      (o : DatabaseBackup) (reason message : String) (outcome : Outcome)
      → Settles c o.status.database_id (DatabaseBackup.Status.report E o reason message outcome)
  unfolding DatabaseBackup.Status.report set_ready_condition ◌>>=◌
  report-Settles o reason message outcome = record { at = λ w b. settled _ _ b }

  report_failure-Settles :
      (o : DatabaseBackup) (reason : String) (e : Error)
      → Settles c o.status.database_id (DatabaseBackup.Status.report_failure E o reason e)
  unfolding DatabaseBackup.Status.report_failure
  report_failure-Settles o reason e = report-Settles o reason _ _

  report_success-Settles :
      (o : DatabaseBackup) (id : String)
      → o.status.database_id ≡ id
      → Settles c id (DatabaseBackup.Status.report_success E o)
  unfolding DatabaseBackup.Status.report_success set_ready_condition ◌>>=◌
  report_success-Settles o id same = record { at = λ w b. settled _ _ (rw same b) }

  refresh_status-Settles :
      (o : DatabaseBackup) (id : String)
      → Settles c o.status.database_id (DatabaseBackup.refresh_status E c o id)
  unfolding DatabaseBackup.refresh_status
  refresh_status-Settles o id =
      Settles-bind c o.status.database_id _ _ (get_database-NoCreation E c id) λ got.
        report_success-Settles (record o { status = refreshed o.status got }) o.status.database_id
          (refreshed-database_id o.status got)

  save_healthcheck-Settles :
      (o : DatabaseBackup) (id : String)
      → Settles c o.status.database_id (DatabaseBackup.save_healthcheck E c o id)
  unfolding DatabaseBackup.save_healthcheck
  save_healthcheck-Settles o id =
      search
        (
          settle_rules,
          report_failure-Settles,
          refresh_status-Settles,
          save_healthcheck_config-NoCreation E c,
        )
        depth 10

  save_configs-Settles :
      (o : DatabaseBackup) (storage_id id : String)
      → Settles c id (DatabaseBackup.save_configs E c o storage_id id)
  unfolding DatabaseBackup.save_configs
  save_configs-Settles o storage_id id =
      let known : DatabaseBackup = record o { status = record o.status { database_id = id } } in
      Settles-bind c id _ _ (save_backup_config-NoCreation E c _) λ result.
        Settles-handle c id result _ _
          (λ e. report_failure-Settles known "BackupConfigSyncFailed" e)
          (λ resp. save_healthcheck-Settles known id)

  module _ (o : DatabaseBackup) where
    built-Settles :
        (storage_id : String) (r : DatabaseRequest)
        → Settles c o.status.database_id (
            DatabaseBackup.send_database E c o r >>= λ result.
            handle result
              (λ e. DatabaseBackup.Status.report_failure E o "APISyncFailed" e)
              (λ resp. DatabaseBackup.save_configs E c o storage_id resp.id))
    unfolding ◌>>=◌ handle
    built-Settles storage_id r = record {
      at = λ w b. elim (Res-cases (DatabaseBackup.send_database E c o r w).0) [
        | inl (a, fine) ↦
            rw fine
              ((save_configs-Settles o storage_id a.id).at _ (send_database-ok E c o r a w b fine))
        | inr (e, failed) ↦ rw failed (
            (report_failure-Settles o "APISyncFailed" e).at _
              (send_database-err E c o r e w o.status.database_id b failed))
      ];
    }

    sync_database-Settles :
        (storage_id : String) (built : Option DatabaseRequest)
        → built ≢ none
        → Settles c o.status.database_id (DatabaseBackup.sync_database E c o storage_id built)
    unfolding DatabaseBackup.sync_database handle_some
    sync_database-Settles storage_id none there = absurd (there refl)
    sync_database-Settles storage_id (some r) there = built-Settles storage_id r

    secrets-Settles :
        (storage_id : String) (ids : List String) (r : Res SecretKeyRef)
        → password_ref o.spec.database ≡ r
        → Settles c o.status.database_id
            (DatabaseBackup.resolve_secrets_and_sync E c o storage_id ids)
    unfolding DatabaseBackup.resolve_secrets_and_sync DatabaseBackup.resolve_ssl_and_sync
    secrets-Settles storage_id ids (ok ref) h =
        search
          (
            settle_rules,
            sync_database-Settles,
            report_failure-Settles o,
            resolve_database_password-Silent E o,
            resolve_postgres_ssl-Silent E o,
            (λ (password : String) (ssl : PostgresSslMaterial).
                ref-built c o password ssl ids ref h),
          )
          depth 12
    secrets-Settles storage_id ids (err e) h = record {
      at = λ w b.
          unfold resolve_database_password ◌>>=◌ Fallible.◌>>=◌ in
          rw h ((report_failure-Settles o "SecretResolutionFailed" e).at w b);
    }

    physical-Settles :
        (storage_id : String) (ids : List String)
        → Settles c o.status.database_id (DatabaseBackup.reject_physical E c o storage_id ids)
    unfolding DatabaseBackup.reject_physical
    physical-Settles storage_id ids =
        Settles-if c o.status.database_id _ _ _ (report-Settles o _ _ _)
          (secrets-Settles storage_id ids _ refl)

    notifiers-Settles :
        (storage_id : String)
        → Settles c o.status.database_id
            (DatabaseBackup.resolve_notifiers_and_sync E c o storage_id)
    unfolding DatabaseBackup.resolve_notifiers_and_sync
    notifiers-Settles storage_id =
        search (settle_rules, physical-Settles, report-Settles o, resolve_notifier_refs-Silent E)

    pub sync-Settles : Settles c o.status.database_id (DatabaseBackup.sync E c o)
    unfolding DatabaseBackup.sync
    sync-Settles =
        search (settle_rules, notifiers-Settles, report-Settles o, resolve_storage_ref-Silent E)
