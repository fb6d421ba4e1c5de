-- ===== src/Wire/RoundTrip.antt =====
-- internal/client/*.go: the types of the responses against those of the requests.
use databasus_operator.Prelude.{◌≡◌, refl, some, none}
use databasus_operator.Wire.Json.{assign_opt_str}
use databasus_operator.Wire.Json.Reads.{past_fields, own_fields, assigned_fields}
use databasus_operator.Wire.Healthcheck.{
  HealthcheckConfigRequest, HealthcheckConfigResponse, encode_healthcheck_config_request,
  decode_healthcheck_config_response,
}
use databasus_operator.Wire.Storage.{
  StorageRequest, StorageResponse, encode_storage_request, decode_storage_response,
}
use databasus_operator.Wire.Notifier.{
  NotifierRequest, NotifierResponse, encode_notifier_request, decode_notifier_response,
}
use databasus_operator.Wire.Database.{
  DatabaseRequest, DatabaseResponse, encode_database_request, decode_database_response,
}
use databasus_operator.Wire.BackupConfig.{
  BackupConfigRequest, BackupConfigResponse, encode_backup_config_request,
  decode_backup_config_response,
}

-- The response that repeats what a request says.
abbrev pub storage_echo : StorageRequest → StorageResponse
storage_echo r = record {
  id = r.id;
  workspace_id = r.workspace_id;
  type = r.type;
  name = r.name;
  last_save_error = none;
}

abbrev pub notifier_echo : NotifierRequest → NotifierResponse
notifier_echo r = record {
  id = r.id;
  workspace_id = r.workspace_id;
  name = r.name;
  notifier_type = r.notifier_type;
  last_send_error = none;
}

abbrev pub database_echo : DatabaseRequest → DatabaseResponse
database_echo r = record {
  id = r.id;
  workspace_id = some r.workspace_id;
  name = r.name;
  type = r.type;
  health_status = none;
  last_backup_time = none;
  last_backup_error_message = none;
}

-- A backup configuration names its Storage in another way in the response.
abbrev pub backup_config_echo : BackupConfigRequest → BackupConfigResponse
backup_config_echo r = record {
  database_id = r.database_id;
  is_backups_enabled = r.is_backups_enabled;
  storage_id = none;
}

abbrev pub healthcheck_echo : HealthcheckConfigRequest → HealthcheckConfigResponse
healthcheck_echo r = record {
  database_id = r.database_id;
  is_healthcheck_enabled = r.is_healthcheck_enabled;
  is_sent_notification_when_unavailable = r.is_sent_notification_when_unavailable;
  interval_minutes = r.interval_minutes;
  attempts_before_concidered_as_down = r.attempts_before_concidered_as_down;
  store_attempts_days = r.store_attempts_days;
}

storage-echo :
    (r : StorageRequest)
    → decode_storage_response (encode_storage_request r) ≡ some (storage_echo r)
unfolding encode_storage_request decode_storage_response
storage-echo r = simp (past_fields, own_fields, assigned_fields)

notifier-echo :
    (r : NotifierRequest)
    → decode_notifier_response (encode_notifier_request r) ≡ some (notifier_echo r)
unfolding encode_notifier_request decode_notifier_response
notifier-echo r = simp (past_fields, own_fields, assigned_fields)

database-echo :
    (r : DatabaseRequest)
    → decode_database_response (encode_database_request r) ≡ some (database_echo r)
unfolding encode_database_request decode_database_response assign_opt_str
database-echo r = simp (past_fields, own_fields)

backup_config-echo :
    (r : BackupConfigRequest)
    → decode_backup_config_response (encode_backup_config_request r) ≡ some (backup_config_echo r)
unfolding encode_backup_config_request decode_backup_config_response
backup_config-echo r = simp (past_fields, own_fields)

healthcheck-echo :
    (r : HealthcheckConfigRequest)
    → decode_healthcheck_config_response (encode_healthcheck_config_request r)
      ≡ some (healthcheck_echo r)
unfolding encode_healthcheck_config_request decode_healthcheck_config_response
healthcheck-echo r = refl

-- An answer that repeats a request is read as a response with the values of the request under the
-- names that the two types share, a missing one as the empty text, and with nil for the rest. This
-- is so for Storages, Notifiers, databases, backup configurations and health checks; the response
-- to a backup configuration does not find the identifier of its Storage in the request.
pub decode-encode :
    ((r : StorageRequest)
      → decode_storage_response (encode_storage_request r) ≡ some (storage_echo r))
    × ((r : NotifierRequest)
        → decode_notifier_response (encode_notifier_request r) ≡ some (notifier_echo r))
    × ((r : DatabaseRequest)
        → decode_database_response (encode_database_request r) ≡ some (database_echo r))
    × ((r : BackupConfigRequest)
        → decode_backup_config_response (encode_backup_config_request r)
          ≡ some (backup_config_echo r))
    × ((r : HealthcheckConfigRequest)
        → decode_healthcheck_config_response (encode_healthcheck_config_request r)
          ≡ some (healthcheck_echo r))
decode-encode = (storage-echo, notifier-echo, database-echo, backup_config-echo, healthcheck-echo)
