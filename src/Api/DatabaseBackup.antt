-- ===== src/Api/DatabaseBackup.antt =====
-- api/v1alpha1/databasebackup_types.go: the spec and the status of a DatabaseBackup.
use databasus_operator.Prelude.{ℕ, String, Bool, Option, List, ℤ}
use databasus_operator.Api.Meta.{SecretKeyRef, ObjectMeta, Condition}

abbrev pub database_type_postgres : String
database_type_postgres = "POSTGRES"

abbrev pub database_type_mysql : String
database_type_mysql = "MYSQL"

abbrev pub database_type_mariadb : String
database_type_mariadb = "MARIADB"

abbrev pub database_type_mongodb : String
database_type_mongodb = "MONGODB"

abbrev pub interval_hourly : String
interval_hourly = "HOURLY"

abbrev pub interval_daily : String
interval_daily = "DAILY"

abbrev pub interval_weekly : String
interval_weekly = "WEEKLY"

abbrev pub interval_monthly : String
interval_monthly = "MONTHLY"

abbrev pub interval_cron : String
interval_cron = "CRON"

abbrev pub retention_policy_type_time_period : String
retention_policy_type_time_period = "TIME_PERIOD"

abbrev pub retention_policy_type_count : String
retention_policy_type_count = "COUNT"

abbrev pub retention_policy_type_gfs : String
retention_policy_type_gfs = "GFS"

abbrev pub backup_encryption_none : String
backup_encryption_none = "NONE"

abbrev pub backup_encryption_encrypted : String
backup_encryption_encrypted = "ENCRYPTED"

abbrev pub notification_backup_failed : String
notification_backup_failed = "BACKUP_FAILED"

abbrev pub notification_backup_success : String
notification_backup_success = "BACKUP_SUCCESS"

pub record PostgresqlDatabaseSpec : Type 0 where
  pub version : String
  pub host : String
  pub port : ℤ
  pub username : String
  pub password_secret_ref : SecretKeyRef
  pub database : String
  pub ssl_mode : String
  pub ssl_client_cert_secret_ref : Option SecretKeyRef
  pub ssl_client_key_secret_ref : Option SecretKeyRef
  pub ssl_root_cert_secret_ref : Option SecretKeyRef
  pub backup_type : String
  pub include_schemas : List String
  pub exclude_tables : List String
  pub is_skip_user_mappings : Bool
  pub cpu_count : ℤ

pub record MysqlDatabaseSpec : Type 0 where
  pub version : String
  pub host : String
  pub port : ℤ
  pub username : String
  pub password_secret_ref : SecretKeyRef
  pub database : String
  pub is_https : Bool

pub record MariadbDatabaseSpec : Type 0 where
  pub version : String
  pub host : String
  pub port : ℤ
  pub username : String
  pub password_secret_ref : SecretKeyRef
  pub database : String
  pub is_https : Bool

pub record MongodbDatabaseSpec : Type 0 where
  pub version : String
  pub host : String
  pub port : Option ℤ
  pub username : String
  pub password_secret_ref : SecretKeyRef
  pub database : String
  pub auth_database : String
  pub is_https : Bool
  pub is_srv : Bool
  pub is_direct_connection : Bool
  pub cpu_count : ℤ

pub record DatabaseSpec : Type 0 where
  pub name : String
  pub type : String
  pub postgresql : Option PostgresqlDatabaseSpec
  pub mysql : Option MysqlDatabaseSpec
  pub mariadb : Option MariadbDatabaseSpec
  pub mongodb : Option MongodbDatabaseSpec
  pub notifier_refs : List String

pub record BackupIntervalSpec : Type 0 where
  pub type : String
  pub time_of_day : Option String
  pub weekday : Option ℤ
  pub day_of_month : Option ℤ
  pub cron_expression : Option String

pub record RetentionPolicySpec : Type 0 where
  pub type : String
  pub time_period : String
  pub count : ℤ
  pub gfs_hours : ℤ
  pub gfs_days : ℤ
  pub gfs_weeks : ℤ
  pub gfs_months : ℤ
  pub gfs_years : ℤ

pub record BackupSpec : Type 0 where
  pub is_enabled : Bool
  pub interval : BackupIntervalSpec
  pub retention_policy : RetentionPolicySpec
  pub storage_ref : String
  pub send_notifications_on : List String
  pub is_retry_if_failed : Bool
  pub max_failed_tries_count : ℤ
  pub encryption : String

pub record HealthcheckSpec : Type 0 where
  pub is_enabled : Bool
  pub is_sent_notification_when_unavailable : Bool
  pub interval_minutes : ℤ
  pub attempts_before_considered_as_down : ℤ
  pub store_attempts_days : ℤ

pub record DatabaseBackupSpec : Type 0 where
  pub database : DatabaseSpec
  pub backup : BackupSpec
  pub healthcheck : Option HealthcheckSpec

pub record DatabaseBackupStatus : Type 0 where
  pub database_id : String
  pub backup_config_id : String
  pub health_status : String
  pub last_backup_time : Option ℕ
  pub last_backup_error_message : String
  pub observed_generation : ℤ
  pub conditions : List Condition

pub record DatabaseBackup : Type 0 where
  pub metadata : ObjectMeta
  pub spec : DatabaseBackupSpec
  pub status : DatabaseBackupStatus
