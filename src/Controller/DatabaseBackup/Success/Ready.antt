-- ===== src/Controller/DatabaseBackup/Success/Ready.antt =====
-- internal/controller/databasebackup_controller.go: a synchronisation of a DatabaseBackup whose
-- dependencies are ready and whose requests are accepted.
use databasus_operator.Prelude.{String, ◌≡◌, false, some, List}
use databasus_operator.Api.DatabaseBackup.{DatabaseBackup}
use databasus_operator.Wire.Database.{DatabaseRequest}
use databasus_operator.Effects.{ok, World, Env}
use databasus_operator.Client.Request.{DatabasusClient}
use databasus_operator.Controller.DatabaseBackup.{is_physical}
use databasus_operator.Controller.DatabaseBackup.Build.{build_database_request}
use databasus_operator.Controller.DatabaseBackup.Resolve.{
  resolve_storage_ref, resolve_notifier_refs, resolve_database_password, resolve_postgres_ssl,
  PostgresSslMaterial,
}

module _ {S : Type 0} (E : Env S) (c : DatabasusClient) (b : DatabaseBackup) where
  -- The worlds after the resolution of the Storage, the Notifiers, the password and the SSL
  -- material.
  abbrev after_storage : World S → World S
  after_storage w = (resolve_storage_ref E b.metadata.namespace b.spec.backup.storage_ref w).1

  abbrev after_notifiers : World S → World S
  after_notifiers w =
      (resolve_notifier_refs E b.metadata.namespace b.spec.database.notifier_refs
        (after_storage w)).1

  abbrev after_password : World S → World S
  after_password w = (resolve_database_password E b (after_notifiers w)).1

  abbrev after_ssl : World S → World S
  after_ssl w = (resolve_postgres_ssl E b (after_password w)).1

  -- What the DatabaseBackup refers to is resolved, one after the other, from the world `w` on, and a
  -- request is built from it; the DatabaseBackup does not ask for physical backups.
  pub record IsResolved (w : World S) (storage_id : String) (request : DatabaseRequest)
      : Type 0 where
    pub notifier_ids : List String
    pub password : String
    pub ssl : PostgresSslMaterial
    pub storage :
        (resolve_storage_ref E b.metadata.namespace b.spec.backup.storage_ref w).0 ≡ ok storage_id
    pub notifiers :
        (resolve_notifier_refs E b.metadata.namespace b.spec.database.notifier_refs
          (after_storage w)).0
        ≡ ok notifier_ids
    pub logical : is_physical b.spec.database.postgresql ≡ false
    pub secret : (resolve_database_password E b (after_notifiers w)).0 ≡ ok password
    pub material : (resolve_postgres_ssl E b (after_password w)).0 ≡ ok ssl
    pub built : build_database_request c b password ssl notifier_ids ≡ some request
