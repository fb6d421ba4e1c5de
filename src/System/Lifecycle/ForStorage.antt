-- ===== src/System/Lifecycle/ForStorage.antt =====
-- A reconciliation of a Storage follows the life of the object.
use databasus_operator.Prelude.{◌≡◌, refl, true, false, not}
use databasus_operator.Api.Storage.{Storage, StorageStatus}
use databasus_operator.Effects.{Event, storage_object, Env, error_text}
use databasus_operator.Controller.Written.{unready_storage, ready_storage}
use databasus_operator.Effects.Logs.{Logs, Adds-mono}
use databasus_operator.Effects.Laws.{FinalizerLaws}
use databasus_operator.Client.Request.{DatabasusClient}
use databasus_operator.Controller.Storage.{storage_finalizer, reconcile_storage}
use databasus_operator.Controller.Storage.Footprint as Footprint
use databasus_operator.System.Lifecycle.Phase.{
  phase, phase-from, claimed, released, IsAllowed, claims, releases, reports, syncs, cleans,
  differs,
}

module _ {S : Type 0} (E : Env S) (c : DatabasusClient) (k : FinalizerLaws E.kube)
    (o : Storage) where
  remove_finalizer-released :
      not (E.is_zero_time o.metadata.deletion_timestamp) ≡ true
      → phase E
          (storage_object (record o { metadata = E.remove_finalizer o.metadata storage_finalizer }))
        ≡ released
  remove_finalizer-released deleting =
      phase-from E
        (storage_object (record o { metadata = E.remove_finalizer o.metadata storage_finalizer }))
        true true (cc (k.deletion-remove o.metadata storage_finalizer, deleting))
        (cc (k.contains-remove o.metadata storage_finalizer))

  add_finalizer-claimed :
      not (E.is_zero_time o.metadata.deletion_timestamp) ≡ false
      → phase E
          (storage_object (record o { metadata = E.add_finalizer o.metadata storage_finalizer }))
        ≡ claimed
  add_finalizer-claimed live =
      phase-from E
        (storage_object (record o { metadata = E.add_finalizer o.metadata storage_finalizer }))
        false false (cc (k.deletion-add o.metadata storage_finalizer, live))
        (cc (k.contains-add o.metadata storage_finalizer))

  status-claimed :
      (status : StorageStatus)
      → not (E.is_zero_time o.metadata.deletion_timestamp) ≡ false
      → not (E.contains_finalizer o.metadata storage_finalizer) ≡ false
      → phase E (storage_object (record o { status = status })) ≡ claimed
  status-claimed status live owned =
      phase-from E (storage_object (record o { status = status })) false false live owned

  Effect-IsAllowed : (e : Event) → Footprint.Effect E c o e → IsAllowed E c (storage_object o) e
  Effect-IsAllowed _ (Footprint.deletes t deleting owned known) =
      cleans t (phase-from E (storage_object o) true false deleting owned) (differs known)
  Effect-IsAllowed _ (Footprint.releases r deleting owned) =
      releases r (phase-from E (storage_object o) true false deleting owned)
        (remove_finalizer-released deleting)
  Effect-IsAllowed _ (Footprint.claims r live unowned) =
      claims r (phase-from E (storage_object o) false true live unowned)
        (add_finalizer-claimed live)
  Effect-IsAllowed _ (Footprint.saves t _ live owned _) =
      syncs t (phase-from E (storage_object o) false false live owned) (differs refl)
  Effect-IsAllowed _ (Footprint.fails r now reason e live owned) =
      reports _ r (phase-from E (storage_object o) false false live owned) (refl, refl)
        (status-claimed (unready_storage E o now reason (error_text e)).status live owned)
  Effect-IsAllowed _ (Footprint.succeeds r now id live owned) =
      reports _ r (phase-from E (storage_object o) false false live owned) (refl, refl)
        (status-claimed (ready_storage E o id now).status live owned)

  pub reconcile_storage-IsAllowed :
      Logs (IsAllowed E c (storage_object o)) (reconcile_storage E c o)
  reconcile_storage-IsAllowed = record {
    at = λ w. Adds-mono Effect-IsAllowed ((Footprint.reconcile_storage-Effect E c o).at w);
  }
