-- ===== src/System/Release/ForDatabaseBackup.antt =====
-- A reconciliation of a DatabaseBackup keeps the order of a deletion.
use databasus_operator.Prelude.{
  String, ◌<>◌, ◌==◌, ◌≡◌, refl, false, not, none, some, Bool-cases, inl, inr, Option,
  if◌then◌else◌,
}
use databasus_operator.Api.Meta.{NamespacedName, ObjectMeta}
use databasus_operator.Api.DatabaseBackup.{DatabaseBackup}
use databasus_operator.Effects.{
  Error, kube_error, handle_some, handle_got, pure, Event, Got, found, get_error,
  database_backup_object, World, Env,
}
use databasus_operator.Effects.Plain.{◌>>=◌, mapped}
use databasus_operator.Effects.Guards.{Adds-GuardedBy}
use databasus_operator.Effects.Logs.{Adds-mono}
use databasus_operator.Effects.Laws.{FinalizerLaws}
use databasus_operator.Client.Request.{DatabasusClient}
use databasus_operator.Client.Request.Gone.{do_request-Gone}
use databasus_operator.Client.Database.{delete_database}
use databasus_operator.Controller.Outcome.{returned, requeue}
use databasus_operator.Controller.DatabaseBackup.{
  database_backup_finalizer, release, handle_deletion, reconcile_database_backup, reconcile,
}
use databasus_operator.Controller.DatabaseBackup.Footprint.{
  Effect, deletes, releases, claims, creates, updates, configures, monitors, refreshes, reports,
  reconcile_database_backup-Effect,
}
use databasus_operator.System.Release.Guard.{Guarded, Harmless, IsAcknowledged, do_request-Harmless}

module _ {S : Type 0} (E : Env S) (c : DatabasusClient) (k : FinalizerLaws E.kube)
    (o : DatabaseBackup) where
  delete-IsAcknowledged :
      (m : ObjectMeta) (w : World S)
      → (delete_database E c o.status.database_id w).0 ≡ none
      → IsAcknowledged E c
          (database_backup_object (record o { metadata = m }))
          (delete_database E c o.status.database_id w).1.log
  unfolding delete_database mapped
  delete-IsAcknowledged m w h =
      let (t, e, g) =
        do_request-Gone E c "DELETE" ("/api/v1/databases/" <> o.status.database_id) none w h in
      rw e (refl, g)

  delete-Guarded :
      (w : World S)
      → Guarded E c w.log
      → Guarded E c (delete_database E c o.status.database_id w).1.log
  unfolding delete_database mapped
  delete-Guarded w g =
      Adds-GuardedBy
        ((do_request-Harmless E c "DELETE" ("/api/v1/databases/" <> o.status.database_id) none).at
          w)
        g

  after_delete-Guarded :
      (w : World S) (r : Option Error)
      → (delete_database E c o.status.database_id w).0 ≡ r
      → Guarded E c w.log
      → Guarded E c
          (handle_some r
            (λ e. requeue 10)
            (release E o)
            (delete_database E c o.status.database_id w).1).1.log
  unfolding release ◌>>=◌
  after_delete-Guarded w none h g = (
    (λ released.
        delete-IsAcknowledged (E.remove_finalizer o.metadata database_backup_finalizer) w h),
    delete-Guarded w g,
  )
  after_delete-Guarded w (some e) h g = delete-Guarded w g

  handle_deletion-Guarded :
      (w : World S) → Guarded E c w.log → Guarded E c (handle_deletion E c o w).1.log
  unfolding handle_deletion ◌>>=◌
  handle_deletion-Guarded w g =
      elim (Bool-cases (E.contains_finalizer o.metadata database_backup_finalizer)) [
        | inr off ↦ rw off g
        | inl on ↦ rw on (elim (Bool-cases (o.status.database_id == "")) [
          | inl unknown ↦ rw unknown ((λ released. cc (released.1, unknown)), g)
          | inr known ↦ rw known (after_delete-Guarded w _ refl g)
        ])
      ]

  -- An object that is not being deleted is not released.
  Effect-Harmless :
      (id : String) (e : Event)
      → not (E.is_zero_time o.metadata.deletion_timestamp) ≡ false
      → Effect E c o id e
      → Harmless E c e
  Effect-Harmless id _ live (deletes _ _ _ _) old = tt
  Effect-Harmless id _ live (releases r deleting _) old = cc (live, deleting)
  Effect-Harmless id _ live (claims r _ off) old =
      λ released. cc (live, k.deletion-add o.metadata database_backup_finalizer, released.0)
  Effect-Harmless id _ live (creates _ _ _ _ _ _ _ _) old = tt
  Effect-Harmless id _ live (updates _ _ _ _ _ _ _ _) old = tt
  Effect-Harmless id _ live (configures _ _ _ _ _) old = tt
  Effect-Harmless id _ live (monitors _ _ _ _ _ _) old = tt
  Effect-Harmless id _ live (refreshes _ _ _ _) old = tt
  Effect-Harmless id _ live (reports _ _ _ _) old = tt

  reconcile_database_backup-Guarded :
      (w : World S) → Guarded E c w.log → Guarded E c (reconcile_database_backup E c o w).1.log
  reconcile_database_backup-Guarded w g =
      elim (Bool-cases (not (E.is_zero_time o.metadata.deletion_timestamp))) [
        | inl deleting ↦
            unfold reconcile_database_backup in rw deleting (handle_deletion-Guarded w g)
        | inr live ↦
            let (id, adds) = (reconcile_database_backup-Effect E c o).at w in
            Adds-GuardedBy (Adds-mono (λ e. Effect-Harmless id e live) adds) g
      ]

module _ {S : Type 0} (E : Env S) (c : DatabasusClient) (k : FinalizerLaws E.kube) where
  got-Guarded :
      (got : Got DatabaseBackup) (w : World S)
      → Guarded E c w.log
      → Guarded E c
          (handle_got got
            (λ e.
              pure (if E.is_not_found e then returned 0 none else returned 0 (some (kube_error e))))
            (reconcile_database_backup E c)
            w).1.log
  unfolding ◌>>=◌
  got-Guarded (found o) w g = reconcile_database_backup-Guarded E c k o w g
  got-Guarded (get_error e) w g = g

  pub reconcile-Guarded :
      (key : NamespacedName) (w : World S)
      → Guarded E c w.log
      → Guarded E c (reconcile E c key w).1.log
  unfolding reconcile ◌>>=◌
  reconcile-Guarded key w g = got-Guarded _ _ g
