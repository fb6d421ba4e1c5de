-- ===== src/Controller/DatabaseBackup/Physical.antt =====
-- A DatabaseBackup that asks for physical backups.
use databasus_operator.Prelude.{String, ◌≡◌, true, false, not, Option}
use databasus_operator.Api.DatabaseBackup.{DatabaseBackup}
use databasus_operator.Effects.{Event, updated, status_updated, Object, KubeError, Env}
use databasus_operator.Effects.Logs.{Logs, Adds-mono}
use databasus_operator.Client.Request.{DatabasusClient}
use databasus_operator.Controller.DatabaseBackup.{is_physical, reconcile_database_backup}
use databasus_operator.Controller.DatabaseBackup.Footprint.{
  Effect, deletes, releases, claims, creates, updates, configures, monitors, refreshes, reports,
  reconcile_database_backup-Effect,
}

-- A call that stays in the cluster.
pub data IsLocal : Event → Type 0 where
  update_IsLocal : (o : Object) (r : Option KubeError) → IsLocal (updated o r)
  status_IsLocal : (o : Object) (r : Option KubeError) → IsLocal (status_updated o r)

module _ {S : Type 0} (E : Env S) (c : DatabasusClient) (backup : DatabaseBackup)
    (physical : is_physical backup.spec.database.postgresql ≡ true)
    (live : not (E.is_zero_time backup.metadata.deletion_timestamp) ≡ false) where
  Effect-IsLocal : (id : String) (e : Event) → Effect E c backup id e → IsLocal e
  Effect-IsLocal id _ (deletes _ deleting _ _) = cc (deleting, live)
  Effect-IsLocal id _ (releases _ _ _) = update_IsLocal _ _
  Effect-IsLocal id _ (claims _ _ _) = update_IsLocal _ _
  Effect-IsLocal id _ (creates _ _ _ _ logical _ _ _) = cc (physical, logical)
  Effect-IsLocal id _ (updates _ _ _ _ logical _ _ _) = cc (physical, logical)
  Effect-IsLocal id _ (configures _ _ _ _ logical) = cc (physical, logical)
  Effect-IsLocal id _ (monitors _ _ _ _ logical _) = cc (physical, logical)
  Effect-IsLocal id _ (refreshes _ _ _ logical) = cc (physical, logical)
  Effect-IsLocal id _ (reports _ _ _ _) = status_IsLocal _ _

  -- For a DatabaseBackup that is not being deleted and whose PostgreSQL section asks for physical
  -- backups, a reconciliation sends no request to the API: it only writes to the cluster.
  pub physical-IsLocal : Logs IsLocal (reconcile_database_backup E c backup)
  physical-IsLocal = record {
    at = λ w.
        let (id, adds) = (reconcile_database_backup-Effect E c backup).at w in
        Adds-mono (Effect-IsLocal id) adds;
  }
