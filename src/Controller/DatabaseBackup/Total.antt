-- ===== src/Controller/DatabaseBackup/Total.antt =====
-- A reconciliation of a DatabaseBackup dereferences no nil section.
use databasus_operator.Prelude.{
  ℕ, String, ◌≡◌, ◌≢◌, refl, Option, none, some, true, false, arith, Bool, if◌then◌else◌, List,
}
use databasus_operator.Api.Meta.{NamespacedName, SecretKeyRef}
use databasus_operator.Api.DatabaseBackup.{DatabaseBackup}
use databasus_operator.Wire.Database.{DatabaseRequest}
use databasus_operator.Effects.{Env, World, Res, ok, err, Error, KubeError, handle_some}
use databasus_operator.Effects.Plain.{◌>>=◌}
use databasus_operator.Effects.Returns.{Returns, return_rules}
use databasus_operator.Effects.Fallible
use databasus_operator.Client.Request.{DatabasusClient}
use databasus_operator.Controller.Outcome.{Outcome, returned, finished}
use databasus_operator.Controller.DatabaseBackup
use databasus_operator.Controller.DatabaseBackup.Resolve.{
  PostgresSslMaterial, password_ref, resolve_database_password,
}
use databasus_operator.Controller.DatabaseBackup.Build.{build_database_request}

-- The section that the type names is there, or the password is not resolved.
pub ref-built :
    (c : DatabasusClient) (backup : DatabaseBackup) (password : String) (ssl : PostgresSslMaterial)
    (ids : List String) (ref : SecretKeyRef)
    → password_ref backup.spec.database ≡ ok ref
    → build_database_request c backup password ssl ids ≢ none
unfolding password_ref build_database_request
ref-built c backup password ssl ids ref h = ground arith

-- The call returned: no nil pointer was dereferenced.
pub data IsReturned : Outcome → Type 0 where
  does_return : (seconds : ℕ) (e : Option Error) → IsReturned (returned seconds e)

finished-IsReturned : (e : Option KubeError) → IsReturned (finished e)
finished-IsReturned none = does_return _ _
finished-IsReturned (some e) = does_return _ _

if-IsReturned :
    (b : Bool) (m n : Outcome) → IsReturned m → IsReturned n → IsReturned (if b then m else n)
if-IsReturned true m n km kn = km
if-IsReturned false m n km kn = kn

settled-IsReturned : (e : Option KubeError) → IsReturned (DatabaseBackup.Status.settled e)
settled-IsReturned none = does_return _ _
settled-IsReturned (some e) = does_return _ _

module _ {S : Type 0} (E : Env S) (c : DatabasusClient) where
  report_success-IsReturned :
      (b : DatabaseBackup)
      → Returns (λ o log. IsReturned o) (DatabaseBackup.Status.report_success E b)
  unfolding DatabaseBackup.Status.report_success
  report_success-IsReturned b = search (return_rules, settled-IsReturned)

  report-IsReturned :
      (b : DatabaseBackup) (reason message : String) (o : Outcome)
      → IsReturned o
      → Returns (λ o log. IsReturned o) (DatabaseBackup.Status.report E b reason message o)
  unfolding DatabaseBackup.Status.report
  report-IsReturned b reason message o h = search (return_rules, h)

  report_failure-IsReturned :
      (b : DatabaseBackup) (reason : String) (e : Error)
      → Returns (λ o log. IsReturned o) (DatabaseBackup.Status.report_failure E b reason e)
  unfolding DatabaseBackup.Status.report_failure
  report_failure-IsReturned b reason e = report-IsReturned b reason _ _ (does_return _ _)

  module _ (backup : DatabaseBackup) where
    release-IsReturned : Returns (λ o log. IsReturned o) (DatabaseBackup.release E backup)
    unfolding DatabaseBackup.release
    release-IsReturned = search (return_rules, finished-IsReturned)

    save_configs-IsReturned :
        (storage_id id : String)
        → Returns (λ o log. IsReturned o) (DatabaseBackup.save_configs E c backup storage_id id)
    unfolding DatabaseBackup.save_configs
    save_configs-IsReturned storage_id id =
        search (return_rules, report_success-IsReturned, report_failure-IsReturned) depth 12

    sync_database-IsReturned :
        (storage_id : String) (built : Option DatabaseRequest)
        → built ≢ none
        → Returns (λ o log. IsReturned o) (DatabaseBackup.sync_database E c backup storage_id built)
    unfolding DatabaseBackup.sync_database handle_some ◌>>=◌
    sync_database-IsReturned storage_id none there = absurd (there refl)
    sync_database-IsReturned storage_id (some r) there =
        search (return_rules, save_configs-IsReturned, report_failure-IsReturned)

    secrets-IsReturned :
        (storage_id : String) (ids : List String) (r : Res SecretKeyRef)
        → password_ref backup.spec.database ≡ r
        → Returns
            (λ o log. IsReturned o)
            (DatabaseBackup.resolve_secrets_and_sync E c backup storage_id ids)
    unfolding DatabaseBackup.resolve_secrets_and_sync
    secrets-IsReturned storage_id ids (ok ref) h =
        search
          (
            return_rules,
            sync_database-IsReturned,
            report_failure-IsReturned,
            (λ (password : String) (ssl : PostgresSslMaterial).
                ref-built c backup password ssl ids ref h),
          )
          depth 12
    secrets-IsReturned storage_id ids (err e) h = record {
      at = λ w.
          unfold resolve_database_password ◌>>=◌ Fallible.◌>>=◌ in
          rw h ((report_failure-IsReturned backup "SecretResolutionFailed" e).at w);
    }

    sync-IsReturned : Returns (λ o log. IsReturned o) (DatabaseBackup.sync E c backup)
    unfolding DatabaseBackup.sync
    sync-IsReturned =
        search
          (
            return_rules,
            (λ (storage_id : String) (ids : List String). secrets-IsReturned storage_id ids _ refl),
            report-IsReturned,
            does_return,
          )
          depth 12

    object-IsReturned :
        Returns (λ o log. IsReturned o) (DatabaseBackup.reconcile_database_backup E c backup)
    unfolding DatabaseBackup.reconcile_database_backup
    object-IsReturned =
        search (return_rules, release-IsReturned, finished-IsReturned, sync-IsReturned, does_return)
          depth 12

  key-IsReturned :
      (key : NamespacedName) → Returns (λ o log. IsReturned o) (DatabaseBackup.reconcile E c key)
  unfolding DatabaseBackup.reconcile
  key-IsReturned key = search (return_rules, object-IsReturned, if-IsReturned, does_return)

  -- A reconciliation of a DatabaseBackup returns, whatever the object, the answers of the cluster
  -- and those of the API are: the section of the database that its type names is never dereferenced
  -- where it is nil.
  pub reconcile-IsReturned :
      (key : NamespacedName) (w : World S) → IsReturned (DatabaseBackup.reconcile E c key w).0
  reconcile-IsReturned key = (key-IsReturned key).at
