-- ===== src/System/Authority.antt =====
-- Where the requests of the running operator go.
use databasus_operator.Effects.{World, Env}
use databasus_operator.Effects.Logs.{Adds, Adds-trans, nothing}
use databasus_operator.Client.Request.{DatabasusClient}
use databasus_operator.Controller.Authority.{
  Authorized, storage-Authorized, notifier-Authorized, backup-Authorized,
}
use databasus_operator.System.Objects.{
  Step, storage_turn, notifier_turn, backup_turn, elsewhere, Reach, here, next,
}

module _ {S : Type 0} (E : Env S) (c : DatabasusClient) where
  Step-Authorized : {v w : World S} → Step E c v w → Adds (Authorized c) v.log w.log
  Step-Authorized (storage_turn w key) = (storage-Authorized E c key).at w
  Step-Authorized (notifier_turn w key) = (notifier-Authorized E c key).at w
  Step-Authorized (backup_turn w key) = (backup-Authorized E c key).at w
  Step-Authorized (elsewhere w s) = nothing

  -- Turns of the reconcilers only add calls to those made before, and each request among the calls
  -- that they add goes to the base URL of the client, followed by one of the paths of the API that
  -- the operator knows, and carries "Bearer " and the token of the client, whatever the objects and
  -- the answers are.
  pub Reach-Authorized : {v w : World S} → Reach E c v w → Adds (Authorized c) v.log w.log
  Reach-Authorized here = nothing
  Reach-Authorized (next r s) = Adds-trans (Reach-Authorized r) (Step-Authorized s)
