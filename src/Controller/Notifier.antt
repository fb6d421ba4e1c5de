-- ===== src/Controller/Notifier.antt =====
-- internal/controller/notifier_controller.go: `Reconcile`, one function for each of its blocks.
pub mod Build
pub mod Contents
pub mod Footprint
pub mod Success
pub mod Report
use databasus_operator.Prelude.{ℕ, String, ◌==◌, Option, none, some, if◌then◌else◌, not}
use databasus_operator.Api.Meta.{NamespacedName, Condition, condition_true, condition_false}
use databasus_operator.Api.Notifier.{Notifier}
use databasus_operator.Wire.Notifier.{NotifierRequest}
use databasus_operator.Effects.{
  Error, kube_error, error_text, Res, ok, err, Got, found, get_error, Env, M, pure, handle,
  handle_got, handle_some, clock, fetch_notifier, update, update_status, notifier_object,
}
use databasus_operator.Effects.Plain.{◌>>=◌, ◌>>◌}
use databasus_operator.Client.Request.{DatabasusClient}
use databasus_operator.Client.Notifier.{save_notifier, delete_notifier}
use databasus_operator.Controller.Outcome.{Outcome, returned, finished, requeue}
use Build.{build_notifier_request}

abbrev pub notifier_finalizer : String
notifier_finalizer = "databasus.io/notifier-cleanup"

module _ {S : Type 0} (E : Env S) where
  -- `metav1.Now()` is the argument `now`.
  unfoldable pub set_ready_condition : Notifier → ℕ → String → String → String → Notifier
  set_ready_condition notifier now status reason message =
      let condition : Condition = record {
        type = "Ready";
        status = status;
        observed_generation = notifier.metadata.generation;
        last_transition_time = now;
        reason = reason;
        message = message;
      } in
      record notifier {
        status = record notifier.status {
          conditions = E.set_status_condition notifier.status.conditions condition;
        };
      }

  -- A failed step: the condition says so, and the result of the status update is ignored.
  unfoldable pub report_failure : Notifier → String → Error → M S Outcome
  unfolding set_ready_condition
  report_failure notifier reason e = do
    now ← clock E
    update_status E
        (notifier_object (set_ready_condition notifier now condition_false reason (error_text e)))
    requeue 30

  -- The end of `Reconcile`, with the identifier of the response.
  unfoldable pub report_success : Notifier → String → M S Outcome
  unfolding set_ready_condition
  report_success notifier id = do
    let synced = record notifier {
      status = record notifier.status {
        id = id;
        observed_generation = notifier.metadata.generation;
      };
    }
    now ← clock E
    result ← update_status E (
        notifier_object
          (set_ready_condition synced now condition_true "Synced" "Notifier synced to databasus"))
    pure (finished result)

  unfoldable pub release : Notifier → M S Outcome
  release notifier = do
    result ← update E (
        notifier_object
          (record notifier { metadata = E.remove_finalizer notifier.metadata notifier_finalizer }))
    pure (finished result)

  unfoldable pub add_finalizer : Notifier → M S Outcome
  add_finalizer notifier = do
    result ← update E (
        notifier_object
          (record notifier { metadata = E.add_finalizer notifier.metadata notifier_finalizer }))
    pure (finished result)

module _ {S : Type 0} (E : Env S) (c : DatabasusClient) where
  -- The block that handles a deletion.
  unfoldable pub handle_deletion : Notifier → M S Outcome
  unfolding release
  handle_deletion notifier =
      if not (E.contains_finalizer notifier.metadata notifier_finalizer)
      then pure (returned 0 none)
      else if notifier.status.id == ""
      then release E notifier
      else do
        result ← delete_notifier E c notifier.status.id
        handle_some result (λ e. requeue 10) (release E notifier)

  -- From "Save to databasus" to the end.
  unfoldable pub save : Notifier → NotifierRequest → M S Outcome
  unfolding report_failure report_success
  save notifier request = do
    result ← save_notifier E c (record request { id = notifier.status.id })
    handle result (λ e. report_failure E notifier "APISyncFailed" e)
        (λ resp. report_success E notifier resp.id)

  -- What follows the finalizer.
  unfoldable pub sync : Notifier → M S Outcome
  unfolding save
  sync notifier = do
    built ← build_notifier_request E c notifier
    handle built (λ e. report_failure E notifier "SecretResolutionFailed" e)
        (λ request. save notifier request)

  unfoldable pub reconcile_notifier : Notifier → M S Outcome
  unfolding handle_deletion add_finalizer sync
  reconcile_notifier notifier =
      if not (E.is_zero_time notifier.metadata.deletion_timestamp)
      then handle_deletion notifier
      else if not (E.contains_finalizer notifier.metadata notifier_finalizer)
      then add_finalizer E notifier
      else sync notifier

  unfoldable pub reconcile : NamespacedName → M S Outcome
  unfolding reconcile_notifier
  reconcile key = do
    got ← fetch_notifier E key
    handle_got got
        (λ e. pure (if E.is_not_found e then returned 0 none else returned 0 (some (kube_error e))))
        reconcile_notifier
