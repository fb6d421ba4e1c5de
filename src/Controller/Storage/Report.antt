-- ===== src/Controller/Storage/Report.antt =====
-- How a synchronisation of a Storage ends.
use databasus_operator.Prelude.{ℕ, String, Option, none, List, ◌∷◌}
use databasus_operator.Controller.Written.{after_write, unready_storage, ready_storage}
use databasus_operator.Api.Storage.{Storage}
use databasus_operator.Wire.Storage.{StorageRequest}
use databasus_operator.Effects.{
  Error, KubeError, error_text, Event, status_updated, storage_object, World, Env,
}
use databasus_operator.Effects.Plain.{◌>>=◌}
use databasus_operator.Effects.Returns.{Returns, return_rules}
use databasus_operator.Client.Request.{DatabasusClient}
use databasus_operator.Controller.Outcome.{Outcome, returned}
use databasus_operator.Controller.Storage.{
  set_ready_condition, report_failure, report_success, save, sync,
}

-- The last call writes the status: either the condition Ready is set to False with the reason and
-- the text of an error, nothing else of the object is changed, and the next turn is in 30 seconds;
-- or the identifier, the generation and the condition Ready are set, and the result is that of the
-- write.
pub data IsReported {S : Type 0} (E : Env S) (o : Storage) : Outcome → List Event → Type 0 where
  failed :
      (reason : String) (e : Error) (now : ℕ) (r : Option KubeError) {old : List Event}
      → IsReported E o
          (returned 30 none)
          (status_updated (storage_object (unready_storage E o now reason (error_text e))) r ∷ old)
  succeeded :
      (id : String) (now : ℕ) (r : Option KubeError) {old : List Event}
      → IsReported E o
          (after_write 0 r)
          (status_updated (storage_object (ready_storage E o id now)) r ∷ old)

module _ {S : Type 0} (E : Env S) (c : DatabasusClient) (o : Storage) where
  report_failure-IsReported :
      (reason : String) (e : Error) → Returns (IsReported E o) (report_failure E o reason e)
  unfolding report_failure set_ready_condition ◌>>=◌
  report_failure-IsReported reason e = record { at = λ w. failed reason e _ _ }

  report_success-IsReported : (id : String) → Returns (IsReported E o) (report_success E o id)
  unfolding report_success set_ready_condition ◌>>=◌
  report_success-IsReported id = record { at = λ w. succeeded id _ _ }

  save-IsReported : (r : StorageRequest) → Returns (IsReported E o) (save E c o r)
  unfolding save
  save-IsReported r = search (return_rules, report_failure-IsReported, report_success-IsReported)

  sync-Returns : Returns (IsReported E o) (sync E c o)
  unfolding sync
  sync-Returns = search (return_rules, save-IsReported, report_failure-IsReported)

  -- A synchronisation of a Storage, which is what `Reconcile` does after the finalizer, always
  -- ends with a write of the status, whatever the outside answers. Either Ready is set to False
  -- with the text of an error, nothing else of the object is changed, and the next turn is in 30
  -- seconds; or Ready is set to True together with an identifier and the generation of the object,
  -- and the result is that of the write.
  pub storage_sync-IsReported : (w : World S) → IsReported E o (sync E c o w).0 (sync E c o w).1.log
  storage_sync-IsReported = sync-Returns.at
