-- ===== src/System/Confirm/ForStorage.antt =====
-- A reconciliation of a Storage writes Ready only after its record was saved.
use databasus_operator.Prelude.{
  ℕ, Option, Bool-cases, String, refl, not, none, some, inl, inr, if◌then◌else◌,
}
use databasus_operator.Api.Meta.{NamespacedName, condition_false}
use databasus_operator.Api.Storage.{Storage}
use databasus_operator.Wire.Storage.{StorageRequest}
use databasus_operator.Effects.{
  Error, KubeError, Got, found, get_error, handle_got, pure, kube_error, status_updated,
  storage_object, World, Env, Res-cases,
}
use databasus_operator.Effects.Plain.{◌>>=◌}
use databasus_operator.Effects.Guards.{Adds-GuardedBy}
use databasus_operator.Effects.Logs.{Logs, Logs-Silent, log_rules}
use databasus_operator.Effects.Laws.{ConditionLaws}
use databasus_operator.Client.Request.{DatabasusClient}
use databasus_operator.Client.Storage.{save_storage, delete_storage}
use databasus_operator.Client.Saved.{save_storage-IsPosted}
use databasus_operator.Controller.Outcome.{returned}
use databasus_operator.Controller.Silent.{build_storage_request-Silent}
use databasus_operator.Controller.Storage.{
  storage_finalizer, add_finalizer, set_ready_condition, report_failure, report_success,
  handle_deletion, save, sync, reconcile_storage, reconcile,
}
use databasus_operator.Controller.Storage.Build.{build_storage_request}
use databasus_operator.System.Confirm.Guard.{
  Confirmed, Harmless, IsStored, update-Harmless, do_request-Harmless, false-Unready,
}

module _ {S : Type 0} (E : Env S) (c : DatabasusClient) (k : ConditionLaws E.kube)
    (o : Storage) where
  failed-Harmless :
      (now : ℕ) (reason message : String) (r : Option KubeError)
      → Harmless E c (
          status_updated
            (storage_object (set_ready_condition E o now condition_false reason message))
            r)
  unfolding set_ready_condition
  failed-Harmless now reason message r old ready =
      cc (ready, false-Unready E k o.status.conditions o.metadata.generation now reason message)

  report_failure-Harmless :
      (reason : String) (e : Error) → Logs (Harmless E c) (report_failure E o reason e)
  unfolding report_failure
  report_failure-Harmless reason e = search (log_rules, failed-Harmless)

  report_success-Confirmed :
      (id : String) (w : World S)
      → IsStored c id w.log
      → Confirmed E c w.log
      → Confirmed E c (report_success E o id w).1.log
  unfolding report_success ◌>>=◌ set_ready_condition
  report_success-Confirmed id w stored g = ((λ ready. stored), g)

  save_request-Harmless : (r : StorageRequest) → Logs (Harmless E c) (save_storage E c r)
  unfolding save_storage
  save_request-Harmless r = search (log_rules, do_request-Harmless)

  save-Confirmed :
      (r : StorageRequest) (w : World S)
      → Confirmed E c w.log
      → Confirmed E c (save E c o r w).1.log
  unfolding save ◌>>=◌
  save-Confirmed r w g =
      let sent = record r { id = o.status.id } in
      let kept : Confirmed E c (save_storage E c sent w).1.log =
        Adds-GuardedBy ((save_request-Harmless sent).at w) g in
      elim (Res-cases (save_storage E c sent w).0) [
        | inl (a, fine) ↦
            let (body, (t, logged, answer)) = save_storage-IsPosted E c w sent a fine in
            let stored : IsStored c a.id (save_storage E c sent w).1.log =
              (a, refl, rw logged ((body, refl), answer)) in
            rw fine (report_success-Confirmed a.id (save_storage E c sent w).1 stored kept)
        | inr (e, failed) ↦
            rw failed (Adds-GuardedBy ((report_failure-Harmless "APISyncFailed" e).at _) kept)
      ]

  sync-Confirmed : (w : World S) → Confirmed E c w.log → Confirmed E c (sync E c o w).1.log
  unfolding sync ◌>>=◌
  sync-Confirmed w g =
      let kept : Confirmed E c (build_storage_request E c o w).1.log =
        Adds-GuardedBy ((Logs-Silent (Harmless E c) _ (build_storage_request-Silent E c o)).at w)
          g in
      elim (Res-cases (build_storage_request E c o w).0) [
        | inl (r, fine) ↦ rw fine (save-Confirmed r _ kept)
        | inr (e, failed) ↦
            rw failed
              (Adds-GuardedBy ((report_failure-Harmless "SecretResolutionFailed" e).at _) kept)
      ]

  delete-Harmless : Logs (Harmless E c) (delete_storage E c o.status.id)
  unfolding delete_storage
  delete-Harmless = search (log_rules, do_request-Harmless)

  deletion-Harmless : Logs (Harmless E c) (handle_deletion E c o)
  unfolding handle_deletion
  deletion-Harmless = search (log_rules, delete-Harmless, update-Harmless) depth 12

  add_finalizer-Harmless : Logs (Harmless E c) (add_finalizer E o)
  unfolding add_finalizer
  add_finalizer-Harmless = search (log_rules, update-Harmless)

  reconcile_storage-Confirmed :
      (w : World S) → Confirmed E c w.log → Confirmed E c (reconcile_storage E c o w).1.log
  reconcile_storage-Confirmed w g =
      elim (Bool-cases (not (E.is_zero_time o.metadata.deletion_timestamp))) [
        | inl deleting ↦
            unfold reconcile_storage in rw deleting (Adds-GuardedBy (deletion-Harmless.at w) g)
        | inr live ↦ elim (Bool-cases (not (E.contains_finalizer o.metadata storage_finalizer))) [
          | inl unowned ↦
              unfold reconcile_storage in
              rw (live, unowned) (Adds-GuardedBy (add_finalizer-Harmless.at w) g)
          | inr owned ↦ unfold reconcile_storage in rw (live, owned) (sync-Confirmed w g)
        ]
      ]

module _ {S : Type 0} (E : Env S) (c : DatabasusClient) (k : ConditionLaws E.kube) where
  got-Confirmed :
      (got : Got Storage) (w : World S)
      → Confirmed E c w.log
      → Confirmed E c
          (handle_got got
            (λ e.
              pure (if E.is_not_found e then returned 0 none else returned 0 (some (kube_error e))))
            (reconcile_storage E c)
            w).1.log
  unfolding ◌>>=◌
  got-Confirmed (found o) w g = reconcile_storage-Confirmed E c k o w g
  got-Confirmed (get_error e) w g = g

  pub reconcile-Confirmed :
      (key : NamespacedName) (w : World S)
      → Confirmed E c w.log
      → Confirmed E c (reconcile E c key w).1.log
  unfolding reconcile ◌>>=◌
  reconcile-Confirmed key w g = got-Confirmed _ _ g
