-- ===== src/Controller/Notifier/Footprint.antt =====
-- The footprint of a reconciliation of a Notifier: every call that it can make to the outside.
use databasus_operator.Prelude.{
  ℕ, String, ◌<>◌, ◌==◌, ◌≡◌, true, false, not, none, some, Option, if◌then◌else◌, arith,
}
use databasus_operator.Controller.Written.{unready_notifier, ready_notifier}
use databasus_operator.Api.Notifier.{Notifier}
use databasus_operator.Wire.Notifier.{NotifierRequest, encode_notifier_request}
use databasus_operator.Effects.{
  Event, http, updated, status_updated, notifier_object, Transport, KubeError, Env, Error,
  error_text,
}
use databasus_operator.Effects.Logs.{Logs, Logs-Silent, log_rules}
use databasus_operator.Client.Request.{DatabasusClient, request_of}
use databasus_operator.Client.Notifier.{save_notifier, delete_notifier}
use databasus_operator.Controller.Notifier.{
  notifier_finalizer, set_ready_condition, report_failure, report_success, handle_deletion, save,
  sync, reconcile_notifier,
}
use databasus_operator.Controller.Notifier.Build.{build_notifier_request}
use databasus_operator.Controller.Silent.{build_notifier_request-Silent}

-- An event of the reconciliation of `notifier`: it is being deleted and has the finalizer, and its record
-- is deleted or the finalizer removed; or it is not being deleted, and it gets the finalizer, or it
-- has it and its record is saved under the identifier in its status, or its status is written with
-- a failure or a success.
pub data Effect {S : Type 0} (E : Env S) (c : DatabasusClient) (notifier : Notifier)
    : Event → Type 0 where
  deletes :
      (t : Transport)
      → not (E.is_zero_time notifier.metadata.deletion_timestamp) ≡ true
      → not (E.contains_finalizer notifier.metadata notifier_finalizer) ≡ false
      → (notifier.status.id == "") ≡ false
      → Effect E c notifier
          (http (request_of c "DELETE" ("/api/v1/notifiers/" <> notifier.status.id) none) t)
  releases :
      (r : Option KubeError)
      → not (E.is_zero_time notifier.metadata.deletion_timestamp) ≡ true
      → not (E.contains_finalizer notifier.metadata notifier_finalizer) ≡ false
      → Effect E c notifier (
          updated
            (notifier_object (record notifier {
              metadata = E.remove_finalizer notifier.metadata notifier_finalizer;
            }))
            r)
  claims :
      (r : Option KubeError)
      → not (E.is_zero_time notifier.metadata.deletion_timestamp) ≡ false
      → not (E.contains_finalizer notifier.metadata notifier_finalizer) ≡ true
      → Effect E c notifier (
          updated
            (notifier_object
              (record notifier { metadata = E.add_finalizer notifier.metadata notifier_finalizer }))
            r)
  saves :
      (t : Transport) (request : NotifierRequest)
      → not (E.is_zero_time notifier.metadata.deletion_timestamp) ≡ false
      → not (E.contains_finalizer notifier.metadata notifier_finalizer) ≡ false
      → request.id ≡ notifier.status.id
      → Effect E c notifier (
          http (request_of c "POST" "/api/v1/notifiers" (some (encode_notifier_request request))) t)
  fails :
      (r : Option KubeError) (now : ℕ) (reason : String) (e : Error)
      → not (E.is_zero_time notifier.metadata.deletion_timestamp) ≡ false
      → not (E.contains_finalizer notifier.metadata notifier_finalizer) ≡ false
      → Effect E c notifier (
          status_updated
            (notifier_object (unready_notifier E notifier now reason (error_text e)))
            r)
  succeeds :
      (r : Option KubeError) (now : ℕ) (id : String)
      → not (E.is_zero_time notifier.metadata.deletion_timestamp) ≡ false
      → not (E.contains_finalizer notifier.metadata notifier_finalizer) ≡ false
      → Effect E c notifier (status_updated (notifier_object (ready_notifier E notifier id now)) r)

module _ {S : Type 0} (E : Env S) (c : DatabasusClient) (notifier : Notifier) where
  module _ (deleting : not (E.is_zero_time notifier.metadata.deletion_timestamp) ≡ true) where
    delete-Effect :
        not (E.contains_finalizer notifier.metadata notifier_finalizer) ≡ false
        → (notifier.status.id == "") ≡ false
        → Logs (Effect E c notifier) (delete_notifier E c notifier.status.id)
    unfolding delete_notifier
    delete-Effect owned known = search (log_rules, deletes)

    handle_deletion-Effect : Logs (Effect E c notifier) (handle_deletion E c notifier)
    unfolding handle_deletion
    handle_deletion-Effect = search (log_rules, delete-Effect, releases) depth 12

  module _ (live : not (E.is_zero_time notifier.metadata.deletion_timestamp) ≡ false)
      (owned : not (E.contains_finalizer notifier.metadata notifier_finalizer) ≡ false) where
    report_failure-Effect :
        (reason : String) (e : Error)
        → Logs (Effect E c notifier) (report_failure E notifier reason e)
    unfolding report_failure set_ready_condition
    report_failure-Effect reason e = search (log_rules, fails)

    report_success-Effect :
        (id : String) → Logs (Effect E c notifier) (report_success E notifier id)
    unfolding report_success set_ready_condition
    report_success-Effect id = search (log_rules, succeeds)

    -- The workspace that `save_notifier` fills in does not touch the identifier.
    sent-Effect :
        (request : NotifierRequest)
        → request.id ≡ notifier.status.id
        → (t : Transport)
        → Effect E c notifier (
            http
              (request_of c "POST" "/api/v1/notifiers" (
                some (
                  encode_notifier_request (
                    if request.workspace_id == ""
                    then record request { workspace_id = c.workspace_id }
                    else request))))
              t)
    sent-Effect request same t = saves t _ live owned (ground arith)

    save_request-Effect :
        (request : NotifierRequest)
        → request.id ≡ notifier.status.id
        → Logs (Effect E c notifier) (save_notifier E c request)
    unfolding save_notifier
    save_request-Effect request same = search (log_rules, sent-Effect request same)

    save-Effect :
        (request : NotifierRequest) → Logs (Effect E c notifier) (save E c notifier request)
    unfolding save
    save-Effect request =
        search (log_rules, save_request-Effect, report_failure-Effect, report_success-Effect)

    build-Effect : Logs (Effect E c notifier) (build_notifier_request E c notifier)
    build-Effect = Logs-Silent _ _ (build_notifier_request-Silent E c notifier)

    sync-Effect : Logs (Effect E c notifier) (sync E c notifier)
    unfolding sync
    sync-Effect = search (log_rules, build-Effect, save-Effect, report_failure-Effect)

  -- Whatever the outside answers, each call that a reconciliation of a Notifier makes is one of
  -- these: while it is being deleted and has the finalizer, the deletion of its record, if it has
  -- an identifier, or the update that removes the finalizer; while it is not, the update that adds
  -- a missing finalizer; and with the finalizer, a POST of its record under the identifier in its
  -- status, or a write of its status with a failure or with a success.
  pub reconcile_notifier-Effect : Logs (Effect E c notifier) (reconcile_notifier E c notifier)
  unfolding reconcile_notifier
  reconcile_notifier-Effect = search (log_rules, handle_deletion-Effect, sync-Effect, claims)
