-- ===== src/System/Objects.antt =====
-- The reconcilers as steps of one system, and what the three kinds of objects have in common.
use databasus_operator.Prelude.{String}
use databasus_operator.Api.Meta.{NamespacedName, ObjectMeta}
use databasus_operator.Effects.{
  Object, storage_object, notifier_object, database_backup_object, World, Env,
}
use databasus_operator.Client.Request.{DatabasusClient}
use databasus_operator.Controller.Storage
use databasus_operator.Controller.Notifier
use databasus_operator.Controller.DatabaseBackup
use databasus_operator.Controller.Storage.{storage_finalizer}
use databasus_operator.Controller.Notifier.{notifier_finalizer}
use databasus_operator.Controller.DatabaseBackup.{database_backup_finalizer}

-- A call of one of the three reconcilers, or anything else that changes the state outside.
pub data Step {S : Type 0} (E : Env S) (c : DatabasusClient) : World S → World S → Type 0 where
  storage_turn : (w : World S) (key : NamespacedName) → Step E c w (Storage.reconcile E c key w).1
  notifier_turn : (w : World S) (key : NamespacedName) → Step E c w (Notifier.reconcile E c key w).1
  backup_turn :
      (w : World S) (key : NamespacedName) → Step E c w (DatabaseBackup.reconcile E c key w).1
  elsewhere : (w : World S) (s : S) → Step E c w (record w { state = s })

pub data Reach {S : Type 0} (E : Env S) (c : DatabasusClient) (v : World S) : World S → Type 0 where
  here : Reach E c v v
  next : {w u : World S} → Reach E c v w → Step E c w u → Reach E c v u

-- What the three kinds of objects have in common.
abbrev pub metadata_of : Object → ObjectMeta
metadata_of (storage_object o) = o.metadata
metadata_of (notifier_object o) = o.metadata
metadata_of (database_backup_object o) = o.metadata

-- The identifier of the record in databasus, empty if there is none.
abbrev pub record_id : Object → String
record_id (storage_object o) = o.status.id
record_id (notifier_object o) = o.status.id
record_id (database_backup_object o) = o.status.database_id

abbrev pub record_path : Object → String
record_path (storage_object o) = "/api/v1/storages/"
record_path (notifier_object o) = "/api/v1/notifiers/"
record_path (database_backup_object o) = "/api/v1/databases/"

abbrev pub finalizer_of : Object → String
finalizer_of (storage_object o) = storage_finalizer
finalizer_of (notifier_object o) = notifier_finalizer
finalizer_of (database_backup_object o) = database_backup_finalizer
