-- ===== src/System/Confirm.antt =====
-- No status says Ready before the API confirmed what it stands for.
pub mod Guard
pub mod ForStorage
pub mod ForNotifier
pub mod ForDatabaseBackup
use databasus_operator.Effects.{World, Env}
use databasus_operator.Effects.Laws.{ConditionLaws}
use databasus_operator.Client.Request.{DatabasusClient}
use databasus_operator.System.Objects.{
  Step, storage_turn, notifier_turn, backup_turn, elsewhere, Reach, here, next,
}
use Guard.{Confirmed}
use ForStorage
use ForNotifier
use ForDatabaseBackup

module _ {S : Type 0} (E : Env S) (c : DatabasusClient) (k : ConditionLaws E.kube) where
  Step-Confirmed : {v w : World S} → Step E c v w → Confirmed E c v.log → Confirmed E c w.log
  Step-Confirmed (storage_turn w key) g = ForStorage.reconcile-Confirmed E c k key w g
  Step-Confirmed (notifier_turn w key) g = ForNotifier.reconcile-Confirmed E c k key w g
  Step-Confirmed (backup_turn w key) g = ForDatabaseBackup.reconcile-Confirmed E c k key w g
  Step-Confirmed (elsewhere w s) g = g

  -- However the three reconcilers and the rest of the cluster take turns, and whatever the outside
  -- answers: if the calls so far were confirmed, those after any number of turns are. A status whose
  -- condition Ready is True is only written right after the requests that confirm it. For a Storage
  -- or a Notifier, that is a POST to the path of its kind whose answer was accepted and gave the
  -- identifier that the status holds. For a DatabaseBackup, the record was created or updated and got the
  -- identifier that the status holds, then its backup configuration was accepted, then perhaps its
  -- health check, and then at most one read of the record was sent. The functions on conditions are
  -- assumed to do what they document.
  pub Reach-Confirmed : {v w : World S} → Reach E c v w → Confirmed E c v.log → Confirmed E c w.log
  Reach-Confirmed here g = g
  Reach-Confirmed (next r s) g = Step-Confirmed s (Reach-Confirmed r g)
