-- ===== src/System/Confirm/ForNotifier.antt =====
-- A reconciliation of a Notifier writes Ready only after its record was saved.
use databasus_operator.Prelude.{
  ℕ, Option, Bool-cases, String, refl, not, none, some, inl, inr, if◌then◌else◌,
}
use databasus_operator.Api.Meta.{NamespacedName, condition_false}
use databasus_operator.Api.Notifier.{Notifier}
use databasus_operator.Wire.Notifier.{NotifierRequest}
use databasus_operator.Effects.{
  Error, KubeError, Got, found, get_error, handle_got, pure, kube_error, status_updated,
  notifier_object, World, Env, Res-cases,
}
use databasus_operator.Effects.Plain.{◌>>=◌}
use databasus_operator.Effects.Guards.{Adds-GuardedBy}
use databasus_operator.Effects.Logs.{Logs, Logs-Silent, log_rules}
use databasus_operator.Effects.Laws.{ConditionLaws}
use databasus_operator.Client.Request.{DatabasusClient}
use databasus_operator.Client.Notifier.{save_notifier, delete_notifier}
use databasus_operator.Client.Saved.{save_notifier-IsPosted}
use databasus_operator.Controller.Outcome.{returned}
use databasus_operator.Controller.Silent.{build_notifier_request-Silent}
use databasus_operator.Controller.Notifier.{
  notifier_finalizer, add_finalizer, set_ready_condition, report_failure, report_success,
  handle_deletion, save, sync, reconcile_notifier, reconcile,
}
use databasus_operator.Controller.Notifier.Build.{build_notifier_request}
use databasus_operator.System.Confirm.Guard.{
  Confirmed, Harmless, IsSubscribed, update-Harmless, do_request-Harmless, false-Unready,
}

module _ {S : Type 0} (E : Env S) (c : DatabasusClient) (k : ConditionLaws E.kube)
    (o : Notifier) where
  failed-Harmless :
      (now : ℕ) (reason message : String) (r : Option KubeError)
      → Harmless E c (
          status_updated
            (notifier_object (set_ready_condition E o now condition_false reason message))
            r)
  unfolding set_ready_condition
  failed-Harmless now reason message r old ready =
      cc (ready, false-Unready E k o.status.conditions o.metadata.generation now reason message)

  report_failure-Harmless :
      (reason : String) (e : Error) → Logs (Harmless E c) (report_failure E o reason e)
  unfolding report_failure
  report_failure-Harmless reason e = search (log_rules, failed-Harmless)

  report_success-Confirmed :
      (id : String) (w : World S)
      → IsSubscribed c id w.log
      → Confirmed E c w.log
      → Confirmed E c (report_success E o id w).1.log
  unfolding report_success ◌>>=◌ set_ready_condition
  report_success-Confirmed id w stored g = ((λ ready. stored), g)

  save_request-Harmless : (r : NotifierRequest) → Logs (Harmless E c) (save_notifier E c r)
  unfolding save_notifier
  save_request-Harmless r = search (log_rules, do_request-Harmless)

  save-Confirmed :
      (r : NotifierRequest) (w : World S)
      → Confirmed E c w.log
      → Confirmed E c (save E c o r w).1.log
  unfolding save ◌>>=◌
  save-Confirmed r w g =
      let sent = record r { id = o.status.id } in
      let kept : Confirmed E c (save_notifier E c sent w).1.log =
        Adds-GuardedBy ((save_request-Harmless sent).at w) g in
      elim (Res-cases (save_notifier E c sent w).0) [
        | inl (a, fine) ↦
            let (body, (t, logged, answer)) = save_notifier-IsPosted E c w sent a fine in
            let stored : IsSubscribed c a.id (save_notifier E c sent w).1.log =
              (a, refl, rw logged ((body, refl), answer)) in
            rw fine (report_success-Confirmed a.id (save_notifier E c sent w).1 stored kept)
        | inr (e, failed) ↦
            rw failed (Adds-GuardedBy ((report_failure-Harmless "APISyncFailed" e).at _) kept)
      ]

  sync-Confirmed : (w : World S) → Confirmed E c w.log → Confirmed E c (sync E c o w).1.log
  unfolding sync ◌>>=◌
  sync-Confirmed w g =
      let kept : Confirmed E c (build_notifier_request E c o w).1.log =
        Adds-GuardedBy ((Logs-Silent (Harmless E c) _ (build_notifier_request-Silent E c o)).at w)
          g in
      elim (Res-cases (build_notifier_request E c o w).0) [
        | inl (r, fine) ↦ rw fine (save-Confirmed r _ kept)
        | inr (e, failed) ↦
            rw failed
              (Adds-GuardedBy ((report_failure-Harmless "SecretResolutionFailed" e).at _) kept)
      ]

  delete-Harmless : Logs (Harmless E c) (delete_notifier E c o.status.id)
  unfolding delete_notifier
  delete-Harmless = search (log_rules, do_request-Harmless)

  deletion-Harmless : Logs (Harmless E c) (handle_deletion E c o)
  unfolding handle_deletion
  deletion-Harmless = search (log_rules, delete-Harmless, update-Harmless) depth 12

  add_finalizer-Harmless : Logs (Harmless E c) (add_finalizer E o)
  unfolding add_finalizer
  add_finalizer-Harmless = search (log_rules, update-Harmless)

  reconcile_notifier-Confirmed :
      (w : World S) → Confirmed E c w.log → Confirmed E c (reconcile_notifier E c o w).1.log
  reconcile_notifier-Confirmed w g =
      elim (Bool-cases (not (E.is_zero_time o.metadata.deletion_timestamp))) [
        | inl deleting ↦
            unfold reconcile_notifier in rw deleting (Adds-GuardedBy (deletion-Harmless.at w) g)
        | inr live ↦ elim (Bool-cases (not (E.contains_finalizer o.metadata notifier_finalizer))) [
          | inl unowned ↦
              unfold reconcile_notifier in
              rw (live, unowned) (Adds-GuardedBy (add_finalizer-Harmless.at w) g)
          | inr owned ↦ unfold reconcile_notifier in rw (live, owned) (sync-Confirmed w g)
        ]
      ]

module _ {S : Type 0} (E : Env S) (c : DatabasusClient) (k : ConditionLaws E.kube) where
  got-Confirmed :
      (got : Got Notifier) (w : World S)
      → Confirmed E c w.log
      → Confirmed E c
          (handle_got got
            (λ e.
              pure (if E.is_not_found e then returned 0 none else returned 0 (some (kube_error e))))
            (reconcile_notifier E c)
            w).1.log
  unfolding ◌>>=◌
  got-Confirmed (found o) w g = reconcile_notifier-Confirmed E c k o w g
  got-Confirmed (get_error e) w g = g

  pub reconcile-Confirmed :
      (key : NamespacedName) (w : World S)
      → Confirmed E c w.log
      → Confirmed E c (reconcile E c key w).1.log
  unfolding reconcile ◌>>=◌
  reconcile-Confirmed key w g = got-Confirmed _ _ g
