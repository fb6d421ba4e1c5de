-- ===== src/Tests/Contents.antt =====
-- What requests say, and the ends of objects, at concrete data.
use databasus_operator.Prelude.{refl, none, some, true, [], ◌∷◌}
use databasus_operator.Api.Storage.{Storage}
use databasus_operator.Wire.Json.{obj, end}
use databasus_operator.Wire.Storage.{StorageRequest}
use databasus_operator.Wire.Notifier.{NotifierRequest}
use databasus_operator.Wire.Database.{DatabaseRequest}
use databasus_operator.Effects.{Env, World, storage_object}
use databasus_operator.Effects.Fallible
use databasus_operator.Effects.Fallible.{wrap_error}
use databasus_operator.Controller.Storage.Build.{build_storage_request}
use databasus_operator.Controller.Storage.Contents as StorageContents
use databasus_operator.Controller.Notifier.Build.{build_notifier_request}
use databasus_operator.Controller.Notifier.Contents as NotifierContents
use databasus_operator.Controller.Notifier.Contents.Built.{build_notifier_request-Says}
use databasus_operator.Controller.DatabaseBackup
use databasus_operator.Controller.DatabaseBackup.Resolve.{no_ssl}
use databasus_operator.Controller.DatabaseBackup.Build.{postgresql_logical_request}
use databasus_operator.System.Deletion.{IsDeleted, reconcile_object-IsDeleted}
use databasus_operator.System.Lifecycle.{reconcile_object}
use databasus_operator.Tests.Cluster.{Cluster, memory}
use databasus_operator.Tests.Objects.{
  client, slack_notifier, plain_storage, postgresql, storage, answer, with_id,
}
use databasus_operator.Tests.Runs.{saving, deleted_storage}

-- A Storage on S3 with both keys in one Secret.
abbrev s3_storage : Storage
s3_storage = record plain_storage {
  spec = record plain_storage.spec {
    type = "S3";
    s3 = some (record {
      bucket = "backups";
      region = "eu-1";
      endpoint = "";
      prefix = "shop/";
      access_key_secret_ref = record { name = "s3"; key = "email" };
      secret_key_secret_ref = record { name = "s3"; key = "password" };
      is_use_virtual_hosted_style = true;
      is_skip_tls_verify = true;
      storage_class = "";
    });
  };
}

abbrev s3_body : StorageRequest
s3_body = record {
  id = "";
  workspace_id = "ws-1";
  type = "S3";
  name = "disk";
  s3_storage = some (record {
    s3_bucket = "backups";
    s3_region = "eu-1";
    s3_access_key = "op@example.org";
    s3_secret_key = "s3cret";
    s3_endpoint = "";
    s3_prefix = "shop/";
    s3_use_virtual_hosted_style = true;
    skip_tls_verify = true;
    s3_storage_class = "";
  });
  sftp_storage = none;
}

build_storage_request-Says_example : StorageContents.Says memory client s3_storage s3_body
unfolding build_storage_request Fallible.◌>>=◌ wrap_error
build_storage_request-Says_example =
    StorageContents.build_storage_request-Says memory client s3_storage s3_body saving refl

abbrev slack_body : NotifierRequest
slack_body = record {
  id = "";
  workspace_id = "ws-1";
  name = "team";
  notifier_type = "SLACK";
  discord_notifier = none;
  telegram_notifier = none;
  slack_notifier = some (record { bot_token = "s3cret"; target_chat_id = "C042" });
  email_notifier = none;
  webhook_notifier = none;
  teams_notifier = none;
}

build_notifier_request-Says_example : NotifierContents.Says memory client slack_notifier slack_body
unfolding build_notifier_request Fallible.◌>>=◌ wrap_error
build_notifier_request-Says_example =
    build_notifier_request-Says memory client slack_notifier slack_body saving refl

abbrev terminating : Storage
terminating = storage (some 9) ("databasus.io/storage-cleanup" ∷ []) "st-1"

abbrev released : World Cluster
released = deleted_storage (answer 204 (obj end) ∷ [])

reconcile_object-IsDeleted_example :
    IsDeleted memory client
      (storage_object terminating)
      []
      (reconcile_object memory client (storage_object terminating) released).0
      (reconcile_object memory client (storage_object terminating) released).1.log
reconcile_object-IsDeleted_example =
    reconcile_object-IsDeleted memory client (storage_object terminating) released refl refl

-- The cluster in memory, with an API that answers every request with an identifier.
abbrev accepting : Env Cluster
accepting = record memory { transport = λ r s. (answer 200 (with_id "db-7"), s) }

abbrev database_body : DatabaseRequest
database_body = record {
  id = "";
  workspace_id = "ws-1";
  name = "shop";
  type = "POSTGRES_LOGICAL";
  postgresql_logical = some (postgresql_logical_request (postgresql "PG_DUMP") "s3cret" no_ssl);
  mysql = none;
  mariadb = none;
  mongodb = none;
  notifiers = record { id = "no-1"; workspace_id = "ws-1" } ∷ [];
}
