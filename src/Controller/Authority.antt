-- ===== src/Controller/Authority.antt =====
-- Where the requests of the reconcilers go, and with which credentials.
use databasus_operator.Prelude.{String, ◌<>◌, ◌≡◌, refl}
use databasus_operator.Api.Meta.{NamespacedName}
use databasus_operator.Api.Storage.{Storage}
use databasus_operator.Api.Notifier.{Notifier}
use databasus_operator.Api.DatabaseBackup.{DatabaseBackup}
use databasus_operator.Effects.{Event, http, updated, status_updated, Env}
use databasus_operator.Effects.Logs.{Logs, Adds-mono, log_rules}
use databasus_operator.Client.Request.{DatabasusClient}
use databasus_operator.Client.Endpoints.{
  IsEndpoint, storages_path, storage_path, notifiers_path, notifier_path, create_path, update_path,
  database_path, backup_configs_path, healthcheck_path,
}
use databasus_operator.Controller.Storage
use databasus_operator.Controller.Storage.Footprint as StorageFootprint
use databasus_operator.Controller.Notifier
use databasus_operator.Controller.Notifier.Footprint as NotifierFootprint
use databasus_operator.Controller.DatabaseBackup
use databasus_operator.Controller.DatabaseBackup.Footprint as BackupFootprint

-- A request goes to a path of the API, under the base URL of the client, with the token of the client.
abbrev pub Authorized : DatabasusClient → Event → Type 0
Authorized c (http r t) =
    (r.authorization ≡ "Bearer " <> c.token)
    × ((path : String) × IsEndpoint path × (r.url ≡ c.base_url <> path))
Authorized c (updated o e) = Unit
Authorized c (status_updated o e) = Unit

module _ {S : Type 0} (E : Env S) (c : DatabasusClient) where
  storage_event-Authorized :
      (o : Storage) (e : Event) → StorageFootprint.Effect E c o e → Authorized c e
  storage_event-Authorized o _ (StorageFootprint.deletes t _ _ _) =
      (refl, (_, storage_path _, refl))
  storage_event-Authorized o _ (StorageFootprint.releases _ _ _) = tt
  storage_event-Authorized o _ (StorageFootprint.claims _ _ _) = tt
  storage_event-Authorized o _ (StorageFootprint.saves _ _ _ _ _) = (refl, (_, storages_path, refl))
  storage_event-Authorized o _ (StorageFootprint.fails _ _ _ _ _ _) = tt
  storage_event-Authorized o _ (StorageFootprint.succeeds _ _ _ _ _) = tt

  notifier_event-Authorized :
      (o : Notifier) (e : Event) → NotifierFootprint.Effect E c o e → Authorized c e
  notifier_event-Authorized o _ (NotifierFootprint.deletes t _ _ _) =
      (refl, (_, notifier_path _, refl))
  notifier_event-Authorized o _ (NotifierFootprint.releases _ _ _) = tt
  notifier_event-Authorized o _ (NotifierFootprint.claims _ _ _) = tt
  notifier_event-Authorized o _ (NotifierFootprint.saves _ _ _ _ _) =
      (refl, (_, notifiers_path, refl))
  notifier_event-Authorized o _ (NotifierFootprint.fails _ _ _ _ _ _) = tt
  notifier_event-Authorized o _ (NotifierFootprint.succeeds _ _ _ _ _) = tt

  backup_event-Authorized :
      (o : DatabaseBackup) (id : String) (e : Event)
      → BackupFootprint.Effect E c o id e
      → Authorized c e
  backup_event-Authorized o id _ (BackupFootprint.deletes _ _ _ _) =
      (refl, (_, database_path _, refl))
  backup_event-Authorized o id _ (BackupFootprint.releases _ _ _) = tt
  backup_event-Authorized o id _ (BackupFootprint.claims _ _ _) = tt
  backup_event-Authorized o id _ (BackupFootprint.creates _ _ _ _ _ _ _ _) =
      (refl, (_, create_path, refl))
  backup_event-Authorized o id _ (BackupFootprint.updates _ _ _ _ _ _ _ _) =
      (refl, (_, update_path, refl))
  backup_event-Authorized o id _ (BackupFootprint.configures _ _ _ _ _) =
      (refl, (_, backup_configs_path, refl))
  backup_event-Authorized o id _ (BackupFootprint.monitors _ _ _ _ _ _) =
      (refl, (_, healthcheck_path, refl))
  backup_event-Authorized o id _ (BackupFootprint.refreshes _ _ _ _) =
      (refl, (_, database_path _, refl))
  backup_event-Authorized o id _ (BackupFootprint.reports _ _ _ _) = tt

  storage_object-Authorized : (o : Storage) → Logs (Authorized c) (Storage.reconcile_storage E c o)
  storage_object-Authorized o = record {
    at = λ w.
        Adds-mono (storage_event-Authorized o)
          ((StorageFootprint.reconcile_storage-Effect E c o).at w);
  }

  notifier_object-Authorized :
      (o : Notifier) → Logs (Authorized c) (Notifier.reconcile_notifier E c o)
  notifier_object-Authorized o = record {
    at = λ w.
        Adds-mono (notifier_event-Authorized o)
          ((NotifierFootprint.reconcile_notifier-Effect E c o).at w);
  }

  backup_object-Authorized :
      (o : DatabaseBackup) → Logs (Authorized c) (DatabaseBackup.reconcile_database_backup E c o)
  backup_object-Authorized o = record {
    at = λ w.
        let (id, adds) = (BackupFootprint.reconcile_database_backup-Effect E c o).at w in
        Adds-mono (backup_event-Authorized o id) adds;
  }

  -- Every request that a reconciliation of a Storage sends goes to a path of the API under the
  -- base URL of the client, and carries "Bearer " and the token of the client.
  pub storage-Authorized : (key : NamespacedName) → Logs (Authorized c) (Storage.reconcile E c key)
  unfolding Storage.reconcile
  storage-Authorized key = search (log_rules, storage_object-Authorized)

  -- The same for a reconciliation of a Notifier.
  pub notifier-Authorized :
      (key : NamespacedName) → Logs (Authorized c) (Notifier.reconcile E c key)
  unfolding Notifier.reconcile
  notifier-Authorized key = search (log_rules, notifier_object-Authorized)

  -- The same for a reconciliation of a DatabaseBackup, with all its requests.
  pub backup-Authorized :
      (key : NamespacedName) → Logs (Authorized c) (DatabaseBackup.reconcile E c key)
  unfolding DatabaseBackup.reconcile
  backup-Authorized key = search (log_rules, backup_object-Authorized)
