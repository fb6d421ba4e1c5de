-- ===== src/Controller/Storage/Footprint.antt =====
-- The footprint of a reconciliation of a Storage: every call that it can make to the outside.
use databasus_operator.Prelude.{
  ℕ, String, ◌<>◌, ◌==◌, ◌≡◌, true, false, not, none, some, Option, if◌then◌else◌, arith,
}
use databasus_operator.Controller.Written.{unready_storage, ready_storage}
use databasus_operator.Api.Storage.{Storage}
use databasus_operator.Wire.Storage.{StorageRequest, encode_storage_request}
use databasus_operator.Effects.{
  Event, http, updated, status_updated, storage_object, Transport, KubeError, Env, Error,
  error_text,
}
use databasus_operator.Effects.Logs.{Logs, Logs-Silent, log_rules}
use databasus_operator.Client.Request.{DatabasusClient, request_of}
use databasus_operator.Client.Storage.{save_storage, delete_storage}
use databasus_operator.Controller.Storage.{
  storage_finalizer, set_ready_condition, report_failure, report_success, handle_deletion, save,
  sync, reconcile_storage,
}
use databasus_operator.Controller.Storage.Build.{build_storage_request}
use databasus_operator.Controller.Silent.{build_storage_request-Silent}

-- An event of the reconciliation of `storage`: it is being deleted and has the finalizer, and its record
-- is deleted or the finalizer removed; or it is not being deleted, and it gets the finalizer, or it
-- has it and its record is saved under the identifier in its status, or its status is written with
-- a failure or a success.
pub data Effect {S : Type 0} (E : Env S) (c : DatabasusClient) (storage : Storage)
    : Event → Type 0 where
  deletes :
      (t : Transport)
      → not (E.is_zero_time storage.metadata.deletion_timestamp) ≡ true
      → not (E.contains_finalizer storage.metadata storage_finalizer) ≡ false
      → (storage.status.id == "") ≡ false
      → Effect E c storage
          (http (request_of c "DELETE" ("/api/v1/storages/" <> storage.status.id) none) t)
  releases :
      (r : Option KubeError)
      → not (E.is_zero_time storage.metadata.deletion_timestamp) ≡ true
      → not (E.contains_finalizer storage.metadata storage_finalizer) ≡ false
      → Effect E c storage (
          updated
            (storage_object
              (record storage { metadata = E.remove_finalizer storage.metadata storage_finalizer }))
            r)
  claims :
      (r : Option KubeError)
      → not (E.is_zero_time storage.metadata.deletion_timestamp) ≡ false
      → not (E.contains_finalizer storage.metadata storage_finalizer) ≡ true
      → Effect E c storage (
          updated
            (storage_object
              (record storage { metadata = E.add_finalizer storage.metadata storage_finalizer }))
            r)
  saves :
      (t : Transport) (request : StorageRequest)
      → not (E.is_zero_time storage.metadata.deletion_timestamp) ≡ false
      → not (E.contains_finalizer storage.metadata storage_finalizer) ≡ false
      → request.id ≡ storage.status.id
      → Effect E c storage
          (http (request_of c "POST" "/api/v1/storages" (some (encode_storage_request request))) t)
  fails :
      (r : Option KubeError) (now : ℕ) (reason : String) (e : Error)
      → not (E.is_zero_time storage.metadata.deletion_timestamp) ≡ false
      → not (E.contains_finalizer storage.metadata storage_finalizer) ≡ false
      → Effect E c storage
          (status_updated (storage_object (unready_storage E storage now reason (error_text e))) r)
  succeeds :
      (r : Option KubeError) (now : ℕ) (id : String)
      → not (E.is_zero_time storage.metadata.deletion_timestamp) ≡ false
      → not (E.contains_finalizer storage.metadata storage_finalizer) ≡ false
      → Effect E c storage (status_updated (storage_object (ready_storage E storage id now)) r)

module _ {S : Type 0} (E : Env S) (c : DatabasusClient) (storage : Storage) where
  module _ (deleting : not (E.is_zero_time storage.metadata.deletion_timestamp) ≡ true) where
    delete-Effect :
        not (E.contains_finalizer storage.metadata storage_finalizer) ≡ false
        → (storage.status.id == "") ≡ false
        → Logs (Effect E c storage) (delete_storage E c storage.status.id)
    unfolding delete_storage
    delete-Effect owned known = search (log_rules, deletes)

    handle_deletion-Effect : Logs (Effect E c storage) (handle_deletion E c storage)
    unfolding handle_deletion
    handle_deletion-Effect = search (log_rules, delete-Effect, releases) depth 12

  module _ (live : not (E.is_zero_time storage.metadata.deletion_timestamp) ≡ false)
      (owned : not (E.contains_finalizer storage.metadata storage_finalizer) ≡ false) where
    report_failure-Effect :
        (reason : String) (e : Error)
        → Logs (Effect E c storage) (report_failure E storage reason e)
    unfolding report_failure set_ready_condition
    report_failure-Effect reason e = search (log_rules, fails)

    report_success-Effect : (id : String) → Logs (Effect E c storage) (report_success E storage id)
    unfolding report_success set_ready_condition
    report_success-Effect id = search (log_rules, succeeds)

    -- The workspace that `save_storage` fills in does not touch the identifier.
    sent-Effect :
        (request : StorageRequest)
        → request.id ≡ storage.status.id
        → (t : Transport)
        → Effect E c storage (
            http
              (request_of c "POST" "/api/v1/storages" (
                some (
                  encode_storage_request (
                    if request.workspace_id == ""
                    then record request { workspace_id = c.workspace_id }
                    else request))))
              t)
    sent-Effect request same t = saves t _ live owned (ground arith)

    save_request-Effect :
        (request : StorageRequest)
        → request.id ≡ storage.status.id
        → Logs (Effect E c storage) (save_storage E c request)
    unfolding save_storage
    save_request-Effect request same = search (log_rules, sent-Effect request same)

    save-Effect : (request : StorageRequest) → Logs (Effect E c storage) (save E c storage request)
    unfolding save
    save-Effect request =
        search (log_rules, save_request-Effect, report_failure-Effect, report_success-Effect)

    build-Effect : Logs (Effect E c storage) (build_storage_request E c storage)
    build-Effect = Logs-Silent _ _ (build_storage_request-Silent E c storage)

    sync-Effect : Logs (Effect E c storage) (sync E c storage)
    unfolding sync
    sync-Effect = search (log_rules, build-Effect, save-Effect, report_failure-Effect)

  -- Whatever the outside answers, each call that a reconciliation of a Storage makes is one of
  -- these: while it is being deleted and has the finalizer, the deletion of its record, if it has
  -- an identifier, or the update that removes the finalizer; while it is not, the update that adds
  -- a missing finalizer; and with the finalizer, a POST of its record under the identifier in its
  -- status, or a write of its status with a failure or with a success.
  pub reconcile_storage-Effect : Logs (Effect E c storage) (reconcile_storage E c storage)
  unfolding reconcile_storage
  reconcile_storage-Effect = search (log_rules, handle_deletion-Effect, sync-Effect, claims)
