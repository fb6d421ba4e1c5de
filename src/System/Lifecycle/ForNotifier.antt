-- ===== src/System/Lifecycle/ForNotifier.antt =====
-- A reconciliation of a Notifier follows the life of the object.
use databasus_operator.Prelude.{◌≡◌, refl, true, false, not}
use databasus_operator.Api.Notifier.{Notifier, NotifierStatus}
use databasus_operator.Effects.{Event, notifier_object, Env, error_text}
use databasus_operator.Controller.Written.{unready_notifier, ready_notifier}
use databasus_operator.Effects.Logs.{Logs, Adds-mono}
use databasus_operator.Effects.Laws.{FinalizerLaws}
use databasus_operator.Client.Request.{DatabasusClient}
use databasus_operator.Controller.Notifier.{notifier_finalizer, reconcile_notifier}
use databasus_operator.Controller.Notifier.Footprint as Footprint
use databasus_operator.System.Lifecycle.Phase.{
  phase, phase-from, claimed, released, IsAllowed, claims, releases, reports, syncs, cleans,
  differs,
}

module _ {S : Type 0} (E : Env S) (c : DatabasusClient) (k : FinalizerLaws E.kube)
    (o : Notifier) where
  remove_finalizer-released :
      not (E.is_zero_time o.metadata.deletion_timestamp) ≡ true
      → phase E (
          notifier_object
            (record o { metadata = E.remove_finalizer o.metadata notifier_finalizer }))
        ≡ released
  remove_finalizer-released deleting =
      phase-from E
        (notifier_object (record o { metadata = E.remove_finalizer o.metadata notifier_finalizer }))
        true true (cc (k.deletion-remove o.metadata notifier_finalizer, deleting))
        (cc (k.contains-remove o.metadata notifier_finalizer))

  add_finalizer-claimed :
      not (E.is_zero_time o.metadata.deletion_timestamp) ≡ false
      → phase E
          (notifier_object (record o { metadata = E.add_finalizer o.metadata notifier_finalizer }))
        ≡ claimed
  add_finalizer-claimed live =
      phase-from E
        (notifier_object (record o { metadata = E.add_finalizer o.metadata notifier_finalizer }))
        false false (cc (k.deletion-add o.metadata notifier_finalizer, live))
        (cc (k.contains-add o.metadata notifier_finalizer))

  status-claimed :
      (status : NotifierStatus)
      → not (E.is_zero_time o.metadata.deletion_timestamp) ≡ false
      → not (E.contains_finalizer o.metadata notifier_finalizer) ≡ false
      → phase E (notifier_object (record o { status = status })) ≡ claimed
  status-claimed status live owned =
      phase-from E (notifier_object (record o { status = status })) false false live owned

  Effect-IsAllowed : (e : Event) → Footprint.Effect E c o e → IsAllowed E c (notifier_object o) e
  Effect-IsAllowed _ (Footprint.deletes t deleting owned known) =
      cleans t (phase-from E (notifier_object o) true false deleting owned) (differs known)
  Effect-IsAllowed _ (Footprint.releases r deleting owned) =
      releases r (phase-from E (notifier_object o) true false deleting owned)
        (remove_finalizer-released deleting)
  Effect-IsAllowed _ (Footprint.claims r live unowned) =
      claims r (phase-from E (notifier_object o) false true live unowned)
        (add_finalizer-claimed live)
  Effect-IsAllowed _ (Footprint.saves t _ live owned _) =
      syncs t (phase-from E (notifier_object o) false false live owned) (differs refl)
  Effect-IsAllowed _ (Footprint.fails r now reason e live owned) =
      reports _ r (phase-from E (notifier_object o) false false live owned) (refl, refl)
        (status-claimed (unready_notifier E o now reason (error_text e)).status live owned)
  Effect-IsAllowed _ (Footprint.succeeds r now id live owned) =
      reports _ r (phase-from E (notifier_object o) false false live owned) (refl, refl)
        (status-claimed (ready_notifier E o id now).status live owned)

  pub reconcile_notifier-IsAllowed :
      Logs (IsAllowed E c (notifier_object o)) (reconcile_notifier E c o)
  reconcile_notifier-IsAllowed = record {
    at = λ w. Adds-mono Effect-IsAllowed ((Footprint.reconcile_notifier-Effect E c o).at w);
  }
