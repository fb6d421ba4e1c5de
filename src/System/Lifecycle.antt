-- ===== src/System/Lifecycle.antt =====
-- The reconcilers follow the life of an object.
pub mod Phase
pub mod ForStorage
pub mod ForNotifier
pub mod ForDatabaseBackup
use databasus_operator.Effects.{
  Object, storage_object, notifier_object, database_backup_object, M, Env,
}
use databasus_operator.Effects.Logs.{Logs}
use databasus_operator.Effects.Laws.{FinalizerLaws}
use databasus_operator.Client.Request.{DatabasusClient}
use databasus_operator.Controller.Outcome.{Outcome}
use databasus_operator.Controller.Storage.{reconcile_storage}
use databasus_operator.Controller.Notifier.{reconcile_notifier}
use databasus_operator.Controller.DatabaseBackup.{reconcile_database_backup}
use Phase.{phase, IsAllowed}
use ForStorage.{reconcile_storage-IsAllowed}
use ForNotifier.{reconcile_notifier-IsAllowed}
use ForDatabaseBackup.{reconcile_database_backup-IsAllowed}

-- The reconciliation of an object of any kind, after it was read.
abbrev pub reconcile_object : {S : Type 0} → Env S → DatabasusClient → Object → M S Outcome
reconcile_object E c (storage_object o) = reconcile_storage E c o
reconcile_object E c (notifier_object o) = reconcile_notifier E c o
reconcile_object E c (database_backup_object o) = reconcile_database_backup E c o

module _ {S : Type 0} (E : Env S) (c : DatabasusClient) (k : FinalizerLaws E.kube) where
  -- Whatever the outside answers, a reconciliation of an object of any of the three kinds does only
  -- what its phase allows. An unclaimed object is only written with the finalizer, and otherwise as
  -- it was, and is claimed then. Of a claimed object, requests that are no DELETE are sent, and
  -- another status is written, with the rest of the object as it was, and it stays claimed. Of a
  -- terminating object, the record with its identifier is deleted, at the path of its kind, or the
  -- object is written without the finalizer, and otherwise as it was, and is released then. For a
  -- released object nothing is called. Assumes the documented laws of the finalizer functions.
  pub reconcile_object-IsAllowed : (o : Object) → Logs (IsAllowed E c o) (reconcile_object E c o)
  reconcile_object-IsAllowed (storage_object o) = reconcile_storage-IsAllowed E c k o
  reconcile_object-IsAllowed (notifier_object o) = reconcile_notifier-IsAllowed E c k o
  reconcile_object-IsAllowed (database_backup_object o) =
      reconcile_database_backup-IsAllowed E c k o
