-- ===== src/Tests/Objects.antt =====
-- The objects and the answers of the runs.
use databasus_operator.Prelude.{String, false, true, none, some, Option, List, [], ◌∷◌, pos, ℕ}
use databasus_operator.Api.Meta.{
  NamespacedName, ObjectMeta, SecretKeyRef, Secret, Condition, condition_true,
}
use databasus_operator.Api.Storage.{Storage}
use databasus_operator.Api.Notifier.{Notifier}
use databasus_operator.Api.DatabaseBackup.{DatabaseBackup, PostgresqlDatabaseSpec, HealthcheckSpec}
use databasus_operator.Wire.Json.{Json, str, obj, end, field}
use databasus_operator.Effects.{Transport, response, found, World}
use databasus_operator.Client.Request.{DatabasusClient}
use databasus_operator.Tests.Cluster.{Cluster}

abbrev pub client : DatabasusClient
client = record { base_url = "http://databasus:4005"; token = "t0k3n"; workspace_id = "ws-1" }

abbrev pub key : NamespacedName
key = record { namespace = "prod"; name = "main" }

abbrev meta : Option ℕ → List String → ObjectMeta
meta deletion finalizers = record {
  namespace = "prod";
  name = "main";
  generation = pos 3;
  deletion_timestamp = deletion;
  finalizers = finalizers;
  resource_version = "41";
}

abbrev pub storage : Option ℕ → List String → String → Storage
storage deletion finalizers id = record {
  metadata = meta deletion finalizers;
  spec = record {
    name = "disk";
    type = "LOCAL";
    s3 = none;
    sftp = none;
    azure_blob = none;
    local = none;
    ftp = none;
    rclone = none;
    nas = none;
    google_drive = none;
  };
  status = record { id = id; observed_generation = pos 0; conditions = [] };
}

abbrev ready : Condition
ready = record {
  type = "Ready";
  status = condition_true;
  observed_generation = pos 3;
  last_transition_time = 5;
  reason = "Synced";
  message = "";
}

abbrev pub ready_storage : Storage
ready_storage =
    let s = storage none ("databasus.io/storage-cleanup" ∷ []) "st-1" in
    record s { status = record s.status { conditions = ready ∷ [] } }

abbrev pub notifier : Notifier
notifier = record {
  metadata = meta none ("databasus.io/notifier-cleanup" ∷ []);
  spec = record {
    name = "team";
    type = "SLACK";
    discord = none;
    slack = none;
    telegram = none;
    email = none;
    webhook = none;
    teams = none;
  };
  status = record { id = "no-1"; observed_generation = pos 3; conditions = ready ∷ [] };
}

abbrev pub db_password : SecretKeyRef
db_password = record { name = "db"; key = "password" }

abbrev pub slack_notifier : Notifier
slack_notifier = record notifier {
  spec = record notifier.spec {
    slack = some (record { bot_token_secret_ref = db_password; target_chat_id = "C042" });
  };
}

abbrev pub postgresql : String → PostgresqlDatabaseSpec
postgresql backup_type = record {
  version = "16";
  host = "db.prod";
  port = pos 5432;
  username = "backup";
  password_secret_ref = db_password;
  database = "shop";
  ssl_mode = "disable";
  ssl_client_cert_secret_ref = none;
  ssl_client_key_secret_ref = none;
  ssl_root_cert_secret_ref = none;
  backup_type = backup_type;
  include_schemas = [];
  exclude_tables = [];
  is_skip_user_mappings = false;
  cpu_count = pos 0;
}

abbrev pub healthcheck : HealthcheckSpec
healthcheck = record {
  is_enabled = true;
  is_sent_notification_when_unavailable = true;
  interval_minutes = pos 1;
  attempts_before_considered_as_down = pos 3;
  store_attempts_days = pos 7;
}

abbrev pub backup : String → List String → String → DatabaseBackup
backup backup_type finalizers id = record {
  metadata = meta none finalizers;
  spec = record {
    database = record {
      name = "shop";
      type = "POSTGRES";
      postgresql = some (postgresql backup_type);
      mysql = none;
      mariadb = none;
      mongodb = none;
      notifier_refs = "team" ∷ [];
    };
    backup = record {
      is_enabled = true;
      interval = record {
        type = "DAILY";
        time_of_day = some "04:00";
        weekday = none;
        day_of_month = none;
        cron_expression = none;
      };
      retention_policy = record {
        type = "TIME_PERIOD";
        time_period = "WEEK";
        count = pos 0;
        gfs_hours = pos 0;
        gfs_days = pos 0;
        gfs_weeks = pos 0;
        gfs_months = pos 0;
        gfs_years = pos 0;
      };
      storage_ref = "disk";
      send_notifications_on = "BACKUP_FAILED" ∷ [];
      is_retry_if_failed = true;
      max_failed_tries_count = pos 3;
      encryption = "";
    };
    healthcheck = some healthcheck;
  };
  status = record {
    database_id = id;
    backup_config_id = "";
    health_status = "";
    last_backup_time = none;
    last_backup_error_message = "";
    observed_generation = pos 0;
    conditions = [];
  };
}

abbrev pub secret : Secret
secret = record {
  values = ("email", "op@example.org") ∷ ("password", "s3cret") ∷ ("workspaceName", "prod") ∷ [];
}

-- An answer with a JSON object, whose text does not matter here.
abbrev pub answer : ℕ → Json → Transport
answer status json = response status (record { text = "…"; json = some json })

abbrev pub with_id : String → Json
with_id id = obj (field "id" (str id) end)

abbrev pub with_error : String → Json
with_error message = obj (field "error" (str message) end)

abbrev pub cluster : Storage → DatabaseBackup → List Transport → World Cluster
cluster s b answers = record {
  state = record {
    storage = found s;
    notifier = found notifier;
    backup = found b;
    secret = found secret;
    answers = answers;
    seconds = 100;
  };
  log = [];
}

abbrev pub plain_backup : DatabaseBackup
plain_backup = backup "PG_DUMP" ("databasus.io/databasebackup-cleanup" ∷ []) ""

abbrev pub plain_storage : Storage
plain_storage = storage none ("databasus.io/storage-cleanup" ∷ []) "st-1"
