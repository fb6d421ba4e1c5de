-- ===== src/Controller/Storage.antt =====
-- internal/controller/storage_controller.go: `Reconcile`, one function for each of its blocks.
pub mod Build
pub mod Contents
pub mod Footprint
pub mod Success
pub mod Report
use databasus_operator.Prelude.{ℕ, String, ◌==◌, Option, none, some, if◌then◌else◌, not}
use databasus_operator.Api.Meta.{NamespacedName, Condition, condition_true, condition_false}
use databasus_operator.Api.Storage.{Storage}
use databasus_operator.Wire.Storage.{StorageRequest}
use databasus_operator.Effects.{
  Error, kube_error, error_text, Res, ok, err, Got, found, get_error, Env, M, pure, handle,
  handle_got, handle_some, clock, fetch_storage, update, update_status, storage_object,
}
use databasus_operator.Effects.Plain.{◌>>=◌, ◌>>◌}
use databasus_operator.Client.Request.{DatabasusClient}
use databasus_operator.Client.Storage.{save_storage, delete_storage}
use databasus_operator.Controller.Outcome.{Outcome, returned, finished, requeue}
use Build.{build_storage_request}

abbrev pub storage_finalizer : String
storage_finalizer = "databasus.io/storage-cleanup"

module _ {S : Type 0} (E : Env S) where
  -- `metav1.Now()` is the argument `now`.
  unfoldable pub set_ready_condition : Storage → ℕ → String → String → String → Storage
  set_ready_condition storage now status reason message =
      let condition : Condition = record {
        type = "Ready";
        status = status;
        observed_generation = storage.metadata.generation;
        last_transition_time = now;
        reason = reason;
        message = message;
      } in
      record storage {
        status = record storage.status {
          conditions = E.set_status_condition storage.status.conditions condition;
        };
      }

  -- A failed step: the condition says so, and the result of the status update is ignored.
  unfoldable pub report_failure : Storage → String → Error → M S Outcome
  unfolding set_ready_condition
  report_failure storage reason e = do
    now ← clock E
    update_status E
        (storage_object (set_ready_condition storage now condition_false reason (error_text e)))
    requeue 30

  -- The end of `Reconcile`, with the identifier of the response.
  unfoldable pub report_success : Storage → String → M S Outcome
  unfolding set_ready_condition
  report_success storage id = do
    let synced = record storage {
      status = record storage.status { id = id; observed_generation = storage.metadata.generation };
    }
    now ← clock E
    result ← update_status E (
        storage_object
          (set_ready_condition synced now condition_true "Synced" "Storage synced to databasus"))
    pure (finished result)

  unfoldable pub release : Storage → M S Outcome
  release storage = do
    result ← update E (
        storage_object
          (record storage { metadata = E.remove_finalizer storage.metadata storage_finalizer }))
    pure (finished result)

  unfoldable pub add_finalizer : Storage → M S Outcome
  add_finalizer storage = do
    result ← update E (
        storage_object
          (record storage { metadata = E.add_finalizer storage.metadata storage_finalizer }))
    pure (finished result)

module _ {S : Type 0} (E : Env S) (c : DatabasusClient) where
  -- The block that handles a deletion.
  unfoldable pub handle_deletion : Storage → M S Outcome
  unfolding release
  handle_deletion storage =
      if not (E.contains_finalizer storage.metadata storage_finalizer)
      then pure (returned 0 none)
      else if storage.status.id == ""
      then release E storage
      else do
        result ← delete_storage E c storage.status.id
        handle_some result (λ e. requeue 10) (release E storage)

  -- From "Save to databasus" to the end.
  unfoldable pub save : Storage → StorageRequest → M S Outcome
  unfolding report_failure report_success
  save storage request = do
    result ← save_storage E c (record request { id = storage.status.id })
    handle result (λ e. report_failure E storage "APISyncFailed" e)
        (λ resp. report_success E storage resp.id)

  -- What follows the finalizer.
  unfoldable pub sync : Storage → M S Outcome
  unfolding save
  sync storage = do
    built ← build_storage_request E c storage
    handle built (λ e. report_failure E storage "SecretResolutionFailed" e)
        (λ request. save storage request)

  unfoldable pub reconcile_storage : Storage → M S Outcome
  unfolding handle_deletion add_finalizer sync
  reconcile_storage storage =
      if not (E.is_zero_time storage.metadata.deletion_timestamp)
      then handle_deletion storage
      else if not (E.contains_finalizer storage.metadata storage_finalizer)
      then add_finalizer E storage
      else sync storage

  unfoldable pub reconcile : NamespacedName → M S Outcome
  unfolding reconcile_storage
  reconcile key = do
    got ← fetch_storage E key
    handle_got got
        (λ e. pure (if E.is_not_found e then returned 0 none else returned 0 (some (kube_error e))))
        reconcile_storage
