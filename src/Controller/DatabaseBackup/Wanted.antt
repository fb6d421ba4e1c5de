-- ===== src/Controller/DatabaseBackup/Wanted.antt =====
-- The configurations that a DatabaseBackup asks for, field by field from its specification.
use databasus_operator.Prelude.{String, ◌==◌, some, if◌then◌else◌}
use databasus_operator.Api.DatabaseBackup.{DatabaseBackupSpec, HealthcheckSpec}
use databasus_operator.Wire.BackupConfig.{BackupConfigRequest}
use databasus_operator.Wire.Healthcheck.{HealthcheckConfigRequest}

-- For the database and the Storage with the identifiers. No encryption is "NONE" to the API.
abbrev pub wanted_config : DatabaseBackupSpec → String → String → BackupConfigRequest
wanted_config spec id storage_id = record {
  database_id = id;
  storage = some (record { id = storage_id });
  is_backups_enabled = spec.backup.is_enabled;
  backup_interval = some (record {
    type = spec.backup.interval.type;
    time_of_day = spec.backup.interval.time_of_day;
    weekday = spec.backup.interval.weekday;
    day_of_month = spec.backup.interval.day_of_month;
    cron_expression = spec.backup.interval.cron_expression;
  });
  retention_policy_type = spec.backup.retention_policy.type;
  retention_time_period = spec.backup.retention_policy.time_period;
  retention_count = spec.backup.retention_policy.count;
  retention_gfs_hours = spec.backup.retention_policy.gfs_hours;
  retention_gfs_days = spec.backup.retention_policy.gfs_days;
  retention_gfs_weeks = spec.backup.retention_policy.gfs_weeks;
  retention_gfs_months = spec.backup.retention_policy.gfs_months;
  retention_gfs_years = spec.backup.retention_policy.gfs_years;
  send_notifications_on = spec.backup.send_notifications_on;
  is_retry_if_failed = spec.backup.is_retry_if_failed;
  max_failed_tries_count = spec.backup.max_failed_tries_count;
  encryption = if spec.backup.encryption == "" then "NONE" else spec.backup.encryption;
}

abbrev pub wanted_healthcheck : HealthcheckSpec → String → HealthcheckConfigRequest
wanted_healthcheck hc id = record {
  database_id = id;
  is_healthcheck_enabled = hc.is_enabled;
  is_sent_notification_when_unavailable = hc.is_sent_notification_when_unavailable;
  interval_minutes = hc.interval_minutes;
  attempts_before_concidered_as_down = hc.attempts_before_considered_as_down;
  store_attempts_days = hc.store_attempts_days;
}
