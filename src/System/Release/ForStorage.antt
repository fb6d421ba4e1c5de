-- ===== src/System/Release/ForStorage.antt =====
-- A reconciliation of a Storage keeps the order of a deletion.
use databasus_operator.Prelude.{
  ◌<>◌, ◌==◌, ◌≡◌, refl, false, not, none, some, Bool-cases, inl, inr, Option, if◌then◌else◌,
}
use databasus_operator.Api.Meta.{NamespacedName, ObjectMeta}
use databasus_operator.Api.Storage.{Storage}
use databasus_operator.Effects.{
  Error, kube_error, handle_some, handle_got, pure, Event, Got, found, get_error, storage_object,
  World, Env,
}
use databasus_operator.Effects.Plain.{◌>>=◌, mapped}
use databasus_operator.Effects.Guards.{Adds-GuardedBy}
use databasus_operator.Effects.Logs.{Adds-mono}
use databasus_operator.Effects.Laws.{FinalizerLaws}
use databasus_operator.Client.Request.{DatabasusClient}
use databasus_operator.Client.Request.Gone.{do_request-Gone}
use databasus_operator.Client.Storage.{delete_storage}
use databasus_operator.Controller.Outcome.{returned, requeue}
use databasus_operator.Controller.Storage.{
  storage_finalizer, release, handle_deletion, reconcile_storage, reconcile,
}
use databasus_operator.Controller.Storage.Footprint.{
  Effect, deletes, releases, claims, saves, fails, succeeds, reconcile_storage-Effect,
}
use databasus_operator.System.Release.Guard.{Guarded, Harmless, IsAcknowledged, do_request-Harmless}

module _ {S : Type 0} (E : Env S) (c : DatabasusClient) (k : FinalizerLaws E.kube)
    (o : Storage) where
  delete-IsAcknowledged :
      (m : ObjectMeta) (w : World S)
      → (delete_storage E c o.status.id w).0 ≡ none
      → IsAcknowledged E c
          (storage_object (record o { metadata = m }))
          (delete_storage E c o.status.id w).1.log
  unfolding delete_storage mapped
  delete-IsAcknowledged m w h =
      let (t, e, g) = do_request-Gone E c "DELETE" ("/api/v1/storages/" <> o.status.id) none w h in
      rw e (refl, g)

  delete-Guarded :
      (w : World S) → Guarded E c w.log → Guarded E c (delete_storage E c o.status.id w).1.log
  unfolding delete_storage mapped
  delete-Guarded w g =
      Adds-GuardedBy
        ((do_request-Harmless E c "DELETE" ("/api/v1/storages/" <> o.status.id) none).at w) g

  after_delete-Guarded :
      (w : World S) (r : Option Error)
      → (delete_storage E c o.status.id w).0 ≡ r
      → Guarded E c w.log
      → Guarded E c
          (handle_some r (λ e. requeue 10) (release E o) (delete_storage E c o.status.id w).1).1.log
  unfolding release ◌>>=◌
  after_delete-Guarded w none h g = (
    (λ released. delete-IsAcknowledged (E.remove_finalizer o.metadata storage_finalizer) w h),
    delete-Guarded w g,
  )
  after_delete-Guarded w (some e) h g = delete-Guarded w g

  handle_deletion-Guarded :
      (w : World S) → Guarded E c w.log → Guarded E c (handle_deletion E c o w).1.log
  unfolding handle_deletion ◌>>=◌
  handle_deletion-Guarded w g =
      elim (Bool-cases (E.contains_finalizer o.metadata storage_finalizer)) [
        | inr off ↦ rw off g
        | inl on ↦ rw on (elim (Bool-cases (o.status.id == "")) [
          | inl unknown ↦ rw unknown ((λ released. cc (released.1, unknown)), g)
          | inr known ↦ rw known (after_delete-Guarded w _ refl g)
        ])
      ]

  -- An object that is not being deleted is not released.
  Effect-Harmless :
      (e : Event)
      → not (E.is_zero_time o.metadata.deletion_timestamp) ≡ false
      → Effect E c o e
      → Harmless E c e
  Effect-Harmless _ live (deletes _ _ _ _) old = tt
  Effect-Harmless _ live (releases r deleting _) old = cc (live, deleting)
  Effect-Harmless _ live (claims r _ off) old =
      λ released. cc (live, k.deletion-add o.metadata storage_finalizer, released.0)
  Effect-Harmless _ live (saves _ _ _ _ _) old = tt
  Effect-Harmless _ live (fails _ _ _ _ _ _) old = tt
  Effect-Harmless _ live (succeeds _ _ _ _ _) old = tt

  reconcile_storage-Guarded :
      (w : World S) → Guarded E c w.log → Guarded E c (reconcile_storage E c o w).1.log
  reconcile_storage-Guarded w g =
      elim (Bool-cases (not (E.is_zero_time o.metadata.deletion_timestamp))) [
        | inl deleting ↦ unfold reconcile_storage in rw deleting (handle_deletion-Guarded w g)
        | inr live ↦
            Adds-GuardedBy
              (Adds-mono (λ e. Effect-Harmless e live) ((reconcile_storage-Effect E c o).at w)) g
      ]

module _ {S : Type 0} (E : Env S) (c : DatabasusClient) (k : FinalizerLaws E.kube) where
  got-Guarded :
      (got : Got Storage) (w : World S)
      → Guarded E c w.log
      → Guarded E c
          (handle_got got
            (λ e.
              pure (if E.is_not_found e then returned 0 none else returned 0 (some (kube_error e))))
            (reconcile_storage E c)
            w).1.log
  unfolding ◌>>=◌
  got-Guarded (found o) w g = reconcile_storage-Guarded E c k o w g
  got-Guarded (get_error e) w g = g

  pub reconcile-Guarded :
      (key : NamespacedName) (w : World S)
      → Guarded E c w.log
      → Guarded E c (reconcile E c key w).1.log
  unfolding reconcile ◌>>=◌
  reconcile-Guarded key w g = got-Guarded _ _ g
