-- ===== src/System/Release.antt =====
-- No finalizer is taken off before the record is gone from databasus.
pub mod Guard
pub mod ForStorage
pub mod ForNotifier
pub mod ForDatabaseBackup
use databasus_operator.Effects.{World, Env}
use databasus_operator.Effects.Laws.{FinalizerLaws}
use databasus_operator.Client.Request.{DatabasusClient}
use databasus_operator.System.Objects.{
  Step, storage_turn, notifier_turn, backup_turn, elsewhere, Reach, here, next,
}
use Guard.{Guarded}
use ForStorage
use ForNotifier
use ForDatabaseBackup

module _ {S : Type 0} (E : Env S) (c : DatabasusClient) (k : FinalizerLaws E.kube) where
  Step-Guarded : {v w : World S} → Step E c v w → Guarded E c v.log → Guarded E c w.log
  Step-Guarded (storage_turn w key) g = ForStorage.reconcile-Guarded E c k key w g
  Step-Guarded (notifier_turn w key) g = ForNotifier.reconcile-Guarded E c k key w g
  Step-Guarded (backup_turn w key) g = ForDatabaseBackup.reconcile-Guarded E c k key w g
  Step-Guarded (elsewhere w s) g = g

  -- However the three reconcilers and the rest of the cluster take turns, and whatever the outside
  -- answers: if the calls so far were guarded, those after any number of turns are. An object with
  -- the identifier of a record is written without its finalizer, while it is being deleted, only
  -- right after a DELETE of that record was answered by 200, by 204, or by an answer that says that
  -- the record does not exist. The finalizer functions are assumed to do what they document.
  pub Reach-Guarded : {v w : World S} → Reach E c v w → Guarded E c v.log → Guarded E c w.log
  Reach-Guarded here g = g
  Reach-Guarded (next r s) g = Step-Guarded s (Reach-Guarded r g)
