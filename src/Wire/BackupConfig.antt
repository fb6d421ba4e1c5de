-- ===== src/Wire/BackupConfig.antt =====
-- The requests and responses of internal/client/backup_config.go, and their JSON.
use databasus_operator.Prelude.{String, Bool, Option, some, List, ℤ}
use databasus_operator.Wire.Json.{
  Json, Fields, str, num, obj, end, omit_str, field_str, omit_num, field_num, field_bool,
  field_strs, omit_none, field_opt, read_str, read_opt_str, read_bool, struct_of, ◌>>=◌,
}

pub record StorageRef : Type 0 where
  pub id : String

pub record IntervalRequest : Type 0 where
  pub type : String
  pub time_of_day : Option String
  pub weekday : Option ℤ
  pub day_of_month : Option ℤ
  pub cron_expression : Option String

pub record BackupConfigRequest : Type 0 where
  pub database_id : String
  pub is_backups_enabled : Bool
  pub retention_policy_type : String
  pub retention_time_period : String
  pub retention_count : ℤ
  pub retention_gfs_hours : ℤ
  pub retention_gfs_days : ℤ
  pub retention_gfs_weeks : ℤ
  pub retention_gfs_months : ℤ
  pub retention_gfs_years : ℤ
  pub storage : Option StorageRef
  pub backup_interval : Option IntervalRequest
  pub send_notifications_on : List String
  pub is_retry_if_failed : Bool
  pub max_failed_tries_count : ℤ
  pub encryption : String

pub record BackupConfigResponse : Type 0 where
  pub database_id : String
  pub is_backups_enabled : Bool
  pub storage_id : Option String

unfoldable pub encode_storage_ref : StorageRef → Json
encode_storage_ref r = obj (field_str "id" r.id end)

unfoldable pub encode_interval_request : IntervalRequest → Json
encode_interval_request r = obj (
    field_str "type" r.type (
      omit_none "timeOfDay" str r.time_of_day (
        omit_none "weekday" num r.weekday (
          omit_none "dayOfMonth" num r.day_of_month
            (omit_none "cronExpression" str r.cron_expression end)))))

unfoldable pub encode_backup_config_request : BackupConfigRequest → Json
unfolding encode_storage_ref encode_interval_request
encode_backup_config_request r = obj (
    field_str "databaseId" r.database_id (
      field_bool "isBackupsEnabled" r.is_backups_enabled (
        field_str "retentionPolicyType" r.retention_policy_type (
          omit_str "retentionTimePeriod" r.retention_time_period (
            omit_num "retentionCount" r.retention_count (
              omit_num "retentionGfsHours" r.retention_gfs_hours (
                omit_num "retentionGfsDays" r.retention_gfs_days (
                  omit_num "retentionGfsWeeks" r.retention_gfs_weeks (
                    omit_num "retentionGfsMonths" r.retention_gfs_months (
                      omit_num "retentionGfsYears" r.retention_gfs_years (
                        omit_none "storage" encode_storage_ref r.storage (
                          field_opt "backupInterval" encode_interval_request r.backup_interval (
                            field_strs "sendNotificationsOn" r.send_notifications_on (
                              field_bool "isRetryIfFailed" r.is_retry_if_failed (
                                field_num "maxFailedTriesCount" r.max_failed_tries_count
                                  (field_str "encryption" r.encryption end))))))))))))))))

decode_backup_config_response_fields : Fields → Option BackupConfigResponse
decode_backup_config_response_fields fs = do
  database_id ← read_str "databaseId" fs
  is_backups_enabled ← read_bool "isBackupsEnabled" fs
  storage_id ← read_opt_str "storageId" fs
  some (record {
    database_id = database_id;
    is_backups_enabled = is_backups_enabled;
    storage_id = storage_id;
  })

-- `json.Unmarshal` into a `BackupConfigResponse`.
unfoldable pub decode_backup_config_response : Json → Option BackupConfigResponse
unfolding decode_backup_config_response_fields read_str read_bool read_opt_str
decode_backup_config_response = struct_of decode_backup_config_response_fields
