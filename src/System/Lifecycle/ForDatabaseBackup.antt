-- ===== src/System/Lifecycle/ForDatabaseBackup.antt =====
-- A reconciliation of a DatabaseBackup follows the life of the object.
use databasus_operator.Prelude.{String, ◌≡◌, refl, true, false, not}
use databasus_operator.Api.DatabaseBackup.{DatabaseBackup, DatabaseBackupStatus}
use databasus_operator.Effects.{Event, database_backup_object, Env}
use databasus_operator.Effects.Logs.{Logs, Adds-mono}
use databasus_operator.Effects.Laws.{FinalizerLaws}
use databasus_operator.Client.Request.{DatabasusClient}
use databasus_operator.Controller.DatabaseBackup.{
  database_backup_finalizer, reconcile_database_backup,
}
use databasus_operator.Controller.DatabaseBackup.Footprint as Footprint
use databasus_operator.System.Lifecycle.Phase.{
  phase, phase-from, claimed, released, IsAllowed, claims, releases, reports, syncs, cleans,
  differs,
}

module _ {S : Type 0} (E : Env S) (c : DatabasusClient) (k : FinalizerLaws E.kube)
    (o : DatabaseBackup) where
  remove_finalizer-released :
      not (E.is_zero_time o.metadata.deletion_timestamp) ≡ true
      → phase E (
          database_backup_object
            (record o { metadata = E.remove_finalizer o.metadata database_backup_finalizer }))
        ≡ released
  remove_finalizer-released deleting =
      phase-from E
        (database_backup_object
          (record o { metadata = E.remove_finalizer o.metadata database_backup_finalizer }))
        true true (cc (k.deletion-remove o.metadata database_backup_finalizer, deleting))
        (cc (k.contains-remove o.metadata database_backup_finalizer))

  add_finalizer-claimed :
      not (E.is_zero_time o.metadata.deletion_timestamp) ≡ false
      → phase E (
          database_backup_object
            (record o { metadata = E.add_finalizer o.metadata database_backup_finalizer }))
        ≡ claimed
  add_finalizer-claimed live =
      phase-from E
        (database_backup_object
          (record o { metadata = E.add_finalizer o.metadata database_backup_finalizer }))
        false false (cc (k.deletion-add o.metadata database_backup_finalizer, live))
        (cc (k.contains-add o.metadata database_backup_finalizer))

  status-claimed :
      (status : DatabaseBackupStatus)
      → not (E.is_zero_time o.metadata.deletion_timestamp) ≡ false
      → not (E.contains_finalizer o.metadata database_backup_finalizer) ≡ false
      → phase E (database_backup_object (record o { status = status })) ≡ claimed
  status-claimed status live owned =
      phase-from E (database_backup_object (record o { status = status })) false false live owned

  Effect-IsAllowed :
      (id : String) (e : Event)
      → Footprint.Effect E c o id e
      → IsAllowed E c (database_backup_object o) e
  Effect-IsAllowed id _ (Footprint.deletes t deleting owned known) =
      cleans t (phase-from E (database_backup_object o) true false deleting owned) (differs known)
  Effect-IsAllowed id _ (Footprint.releases r deleting owned) =
      releases r (phase-from E (database_backup_object o) true false deleting owned)
        (remove_finalizer-released deleting)
  Effect-IsAllowed id _ (Footprint.claims r live unowned) =
      claims r (phase-from E (database_backup_object o) false true live unowned)
        (add_finalizer-claimed live)
  Effect-IsAllowed id _ (Footprint.creates t _ live owned _ _ _ _) =
      syncs t (phase-from E (database_backup_object o) false false live owned) (differs refl)
  Effect-IsAllowed id _ (Footprint.updates t _ live owned _ _ _ _) =
      syncs t (phase-from E (database_backup_object o) false false live owned) (differs refl)
  Effect-IsAllowed id _ (Footprint.configures t _ live owned _) =
      syncs t (phase-from E (database_backup_object o) false false live owned) (differs refl)
  Effect-IsAllowed id _ (Footprint.monitors t _ live owned _ _) =
      syncs t (phase-from E (database_backup_object o) false false live owned) (differs refl)
  Effect-IsAllowed id _ (Footprint.refreshes t live owned _) =
      syncs t (phase-from E (database_backup_object o) false false live owned) (differs refl)
  Effect-IsAllowed id _ (Footprint.reports r status live owned) =
      reports _ r (phase-from E (database_backup_object o) false false live owned) (refl, refl)
        (status-claimed status live owned)

  pub reconcile_database_backup-IsAllowed :
      Logs (IsAllowed E c (database_backup_object o)) (reconcile_database_backup E c o)
  reconcile_database_backup-IsAllowed = record {
    at = λ w.
        let (id, adds) = (Footprint.reconcile_database_backup-Effect E c o).at w in
        Adds-mono (Effect-IsAllowed id) adds;
  }
