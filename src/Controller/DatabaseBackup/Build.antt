-- ===== src/Controller/DatabaseBackup/Build.antt =====
-- internal/controller/databasebackup_controller.go: the requests that a DatabaseBackup asks for.
use databasus_operator.Prelude.{
  String, ◌==◌, Option, none, some, List, [], ◌∷◌, ℤ, pos, is_zero, if◌then◌else◌,
}
use databasus_operator.Api.DatabaseBackup.{
  DatabaseBackup, PostgresqlDatabaseSpec, MysqlDatabaseSpec, MariadbDatabaseSpec,
  MongodbDatabaseSpec, HealthcheckSpec,
}
use databasus_operator.Wire.Database.{
  DatabaseRequest, NotifierRef, PostgresqlLogicalRequest, MysqlRequest, MariadbRequest,
  MongodbRequest,
}
use databasus_operator.Wire.BackupConfig.{BackupConfigRequest}
use databasus_operator.Wire.Healthcheck.{HealthcheckConfigRequest}
use databasus_operator.Client.Request.{DatabasusClient}
use databasus_operator.Controller.DatabaseBackup.Resolve.{PostgresSslMaterial}

-- A count of 0 stands for 1.
abbrev pub at_least_one : ℤ → ℤ
at_least_one n = if is_zero n then pos 1 else n

unfoldable pub notifier_refs : String → List String → List NotifierRef
notifier_refs workspace_id [] = []
notifier_refs workspace_id (id ∷ ids) =
    record { id = id; workspace_id = workspace_id } ∷ notifier_refs workspace_id ids

unfoldable pub postgresql_logical_request :
    PostgresqlDatabaseSpec → String → PostgresSslMaterial → PostgresqlLogicalRequest
postgresql_logical_request spec password ssl = record {
  version = spec.version;
  host = spec.host;
  port = spec.port;
  username = spec.username;
  password = password;
  database = if spec.database == "" then none else some spec.database;
  ssl_mode = spec.ssl_mode;
  ssl_client_cert = ssl.client_cert;
  ssl_client_key = ssl.client_key;
  ssl_root_cert = ssl.root_cert;
  include_schemas = spec.include_schemas;
  exclude_tables = spec.exclude_tables;
  cpu_count = at_least_one spec.cpu_count;
  is_skip_user_mappings = spec.is_skip_user_mappings;
}

unfoldable pub mysql_request : MysqlDatabaseSpec → String → MysqlRequest
mysql_request spec password = record {
  version = spec.version;
  host = spec.host;
  port = spec.port;
  username = spec.username;
  password = password;
  database = spec.database;
  is_https = spec.is_https;
}

unfoldable pub mariadb_request : MariadbDatabaseSpec → String → MariadbRequest
mariadb_request spec password = record {
  version = spec.version;
  host = spec.host;
  port = spec.port;
  username = spec.username;
  password = password;
  database = spec.database;
  is_https = spec.is_https;
}

unfoldable pub mongodb_request : MongodbDatabaseSpec → String → MongodbRequest
mongodb_request spec password = record {
  version = spec.version;
  host = spec.host;
  port = spec.port;
  username = spec.username;
  password = password;
  database = spec.database;
  auth_database = spec.auth_database;
  is_https = spec.is_https;
  is_srv = spec.is_srv;
  is_direct_connection = spec.is_direct_connection;
  cpu_count = at_least_one spec.cpu_count;
}

-- A dereference: `none` for a nil pointer, which panics.
abbrev pub dereferenced : {A B : Type 0} → (A → B) → Option A → Option B
dereferenced f none = none
dereferenced f (some a) = some (f a)

module _ (c : DatabasusClient) where
  abbrev pub base_request : DatabaseBackup → List String → DatabaseRequest
  base_request backup notifier_ids = record {
    id = "";
    workspace_id = c.workspace_id;
    name = backup.spec.database.name;
    type = backup.spec.database.type;
    postgresql_logical = none;
    mysql = none;
    mariadb = none;
    mongodb = none;
    notifiers = notifier_refs c.workspace_id notifier_ids;
  }

  -- `none` where the section that the type names is nil, and the Go code dereferences it.
  unfoldable pub build_database_request :
      DatabaseBackup → String → PostgresSslMaterial → List String → Option DatabaseRequest
  unfolding notifier_refs postgresql_logical_request mysql_request mariadb_request mongodb_request
  build_database_request backup password ssl notifier_ids =
      let base = base_request backup notifier_ids in
      let db = backup.spec.database in
      if db.type == "POSTGRES"
      then dereferenced
          (λ (spec : PostgresqlDatabaseSpec). record base {
            type = "POSTGRES_LOGICAL";
            postgresql_logical = some (postgresql_logical_request spec password ssl);
          })
          db.postgresql
      else if db.type == "MYSQL"
      then dereferenced
          (λ (spec : MysqlDatabaseSpec). record base { mysql = some (mysql_request spec password) })
          db.mysql
      else if db.type == "MARIADB"
      then dereferenced
          (λ (spec : MariadbDatabaseSpec). record base {
            mariadb = some (mariadb_request spec password);
          })
          db.mariadb
      else if db.type == "MONGODB"
      then dereferenced
          (λ (spec : MongodbDatabaseSpec). record base {
            mongodb = some (mongodb_request spec password);
          })
          db.mongodb
      else some base

unfoldable pub build_backup_config_request : DatabaseBackup → String → String → BackupConfigRequest
build_backup_config_request backup database_id storage_id = record {
  database_id = database_id;
  is_backups_enabled = b.is_enabled;
  retention_policy_type = b.retention_policy.type;
  retention_time_period = b.retention_policy.time_period;
  retention_count = b.retention_policy.count;
  retention_gfs_hours = b.retention_policy.gfs_hours;
  retention_gfs_days = b.retention_policy.gfs_days;
  retention_gfs_weeks = b.retention_policy.gfs_weeks;
  retention_gfs_months = b.retention_policy.gfs_months;
  retention_gfs_years = b.retention_policy.gfs_years;
  storage = some (record { id = storage_id });
  backup_interval = some (record {
    type = b.interval.type;
    time_of_day = b.interval.time_of_day;
    weekday = b.interval.weekday;
    day_of_month = b.interval.day_of_month;
    cron_expression = b.interval.cron_expression;
  });
  send_notifications_on = b.send_notifications_on;
  is_retry_if_failed = b.is_retry_if_failed;
  max_failed_tries_count = b.max_failed_tries_count;
  encryption = if b.encryption == "" then "NONE" else b.encryption;
}
  where
    open backup.spec use {backup as b}

-- The spec is dereferenced only where it is there.
unfoldable pub build_healthcheck_request : HealthcheckSpec → String → HealthcheckConfigRequest
build_healthcheck_request hc database_id = record {
  database_id = database_id;
  is_healthcheck_enabled = hc.is_enabled;
  is_sent_notification_when_unavailable = hc.is_sent_notification_when_unavailable;
  interval_minutes = hc.interval_minutes;
  attempts_before_concidered_as_down = hc.attempts_before_considered_as_down;
  store_attempts_days = hc.store_attempts_days;
}
