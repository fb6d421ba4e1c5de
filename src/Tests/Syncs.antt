-- ===== src/Tests/Syncs.antt =====
-- The theorems on synchronisations at concrete data.
use databasus_operator.Prelude.{◌≡◌, refl, none, some, [], ◌∷◌}
use databasus_operator.Effects.{notifier_object, pure, http, status_updated, storage_object}
use databasus_operator.Effects.Fallible.{◌>>=◌, wrap_error}
use databasus_operator.Controller.Storage
use databasus_operator.Controller.Notifier
use databasus_operator.Controller.DatabaseBackup
use databasus_operator.Controller.Storage.Report as StorageReport
use databasus_operator.Controller.Notifier.Report as NotifierReport
use databasus_operator.Controller.DatabaseBackup.Report as BackupReport
use databasus_operator.Controller.Storage.Success as StorageSuccess
use databasus_operator.Controller.Storage.Build.{build_storage_request}
use databasus_operator.Controller.Written.{after_write}
use databasus_operator.Client.Request.{request_of}
use databasus_operator.Client.Request.Accepted.{accepted}
use databasus_operator.Wire.Storage.{
  StorageRequest, StorageResponse, encode_storage_request, decode_storage_response,
}
use databasus_operator.Controller.Notifier.Success as NotifierSuccess
use databasus_operator.Controller.Notifier.Build.{build_notifier_request}
use databasus_operator.Wire.Notifier.{
  NotifierRequest, NotifierResponse, encode_notifier_request, decode_notifier_response,
}
use databasus_operator.Tests.Cluster.{memory}
use databasus_operator.Tests.Objects.{client, slack_notifier, plain_storage, plain_backup, notifier}
use databasus_operator.Tests.Runs.{new_backup, saving}

storage_sync-IsReported_example :
    StorageReport.IsReported memory plain_storage
      (Storage.sync memory client plain_storage saving).0
      (Storage.sync memory client plain_storage saving).1.log
storage_sync-IsReported_example =
    StorageReport.storage_sync-IsReported memory client plain_storage saving

notifier_sync-IsReported_example :
    NotifierReport.IsReported memory notifier
      (Notifier.sync memory client notifier saving).0
      (Notifier.sync memory client notifier saving).1.log
notifier_sync-IsReported_example =
    NotifierReport.notifier_sync-IsReported memory client notifier saving

database_backup_sync-IsReported_example :
    BackupReport.IsReported memory plain_backup
      (DatabaseBackup.sync memory client plain_backup new_backup).0
      (DatabaseBackup.sync memory client plain_backup new_backup).1.log
database_backup_sync-IsReported_example =
    BackupReport.database_backup_sync-IsReported memory client plain_backup new_backup

abbrev stored : StorageResponse
stored = record { id = "st-1"; workspace_id = ""; type = ""; name = ""; last_save_error = none }

abbrev storage_body : StorageRequest
storage_body = record {
  id = "";
  workspace_id = "ws-1";
  type = "LOCAL";
  name = "disk";
  s3_storage = none;
  sftp_storage = none;
}

storage_sync-Accepted_example :
    ((Storage.sync memory client plain_storage saving).0
      ≡ after_write 0
          (StorageSuccess.written memory client plain_storage saving storage_body stored))
    × ((Storage.sync memory client plain_storage saving).1.log
        ≡ status_updated
            (storage_object
              (StorageSuccess.synced memory client plain_storage saving storage_body stored))
            (StorageSuccess.written memory client plain_storage saving storage_body stored)
          ∷ http
              (request_of client "POST" "/api/v1/storages" (
                some (
                  encode_storage_request
                    (StorageSuccess.sent_request client plain_storage storage_body))))
              (StorageSuccess.answer memory client plain_storage saving storage_body).0
          ∷ [])
unfolding build_storage_request decode_storage_response pure
storage_sync-Accepted_example =
    StorageSuccess.storage_sync-Accepted memory client plain_storage saving storage_body stored refl
      refl (accepted 200 _ refl refl)

abbrev slack_body : NotifierRequest
slack_body = record {
  id = "";
  workspace_id = "ws-1";
  name = "team";
  notifier_type = "SLACK";
  discord_notifier = none;
  telegram_notifier = none;
  slack_notifier = some (record { bot_token = "s3cret"; target_chat_id = "C042" });
  email_notifier = none;
  webhook_notifier = none;
  teams_notifier = none;
}

abbrev subscribed : NotifierResponse
subscribed = record {
  id = "st-1";
  workspace_id = "";
  name = "";
  notifier_type = "";
  last_send_error = none;
}

notifier_sync-Accepted_example :
    ((Notifier.sync memory client slack_notifier saving).0
      ≡ after_write 0
          (NotifierSuccess.written memory client slack_notifier saving slack_body subscribed))
    × ((Notifier.sync memory client slack_notifier saving).1.log
        ≡ status_updated
            (notifier_object
              (NotifierSuccess.synced memory client slack_notifier saving slack_body subscribed))
            (NotifierSuccess.written memory client slack_notifier saving slack_body subscribed)
          ∷ http
              (request_of client "POST" "/api/v1/notifiers" (
                some (
                  encode_notifier_request
                    (NotifierSuccess.sent_request client slack_notifier slack_body))))
              (NotifierSuccess.answer memory client slack_notifier saving slack_body).0
          ∷ [])
unfolding build_notifier_request decode_notifier_response ◌>>=◌ wrap_error
notifier_sync-Accepted_example =
    NotifierSuccess.notifier_sync-Accepted memory client slack_notifier saving slack_body subscribed
      refl refl (accepted 200 _ refl refl)
