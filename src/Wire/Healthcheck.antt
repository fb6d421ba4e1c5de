-- ===== src/Wire/Healthcheck.antt =====
-- The requests and responses of internal/client/healthcheck.go, and their JSON.
use databasus_operator.Prelude.{String, Bool, Option, some, ℤ}
use databasus_operator.Wire.Json.{
  Json, Fields, obj, end, field_str, field_num, field_bool, read_str, read_num, read_bool,
  struct_of, ◌>>=◌,
}

pub record HealthcheckConfigRequest : Type 0 where
  pub database_id : String
  pub is_healthcheck_enabled : Bool
  pub is_sent_notification_when_unavailable : Bool
  pub interval_minutes : ℤ
  pub attempts_before_concidered_as_down : ℤ
  pub store_attempts_days : ℤ

pub record HealthcheckConfigResponse : Type 0 where
  pub database_id : String
  pub is_healthcheck_enabled : Bool
  pub is_sent_notification_when_unavailable : Bool
  pub interval_minutes : ℤ
  pub attempts_before_concidered_as_down : ℤ
  pub store_attempts_days : ℤ

unfoldable pub encode_healthcheck_config_request : HealthcheckConfigRequest → Json
encode_healthcheck_config_request r = obj (
    field_str "databaseId" r.database_id (
      field_bool "isHealthcheckEnabled" r.is_healthcheck_enabled (
        field_bool "isSentNotificationWhenUnavailable" r.is_sent_notification_when_unavailable (
          field_num "intervalMinutes" r.interval_minutes (
            field_num "attemptsBeforeConcideredAsDown" r.attempts_before_concidered_as_down
              (field_num "storeAttemptsDays" r.store_attempts_days end))))))

decode_healthcheck_config_response_fields : Fields → Option HealthcheckConfigResponse
decode_healthcheck_config_response_fields fs = do
  database_id ← read_str "databaseId" fs
  is_healthcheck_enabled ← read_bool "isHealthcheckEnabled" fs
  is_sent_notification_when_unavailable ← read_bool "isSentNotificationWhenUnavailable" fs
  interval_minutes ← read_num "intervalMinutes" fs
  attempts_before_concidered_as_down ← read_num "attemptsBeforeConcideredAsDown" fs
  store_attempts_days ← read_num "storeAttemptsDays" fs
  some (record {
    database_id = database_id;
    is_healthcheck_enabled = is_healthcheck_enabled;
    is_sent_notification_when_unavailable = is_sent_notification_when_unavailable;
    interval_minutes = interval_minutes;
    attempts_before_concidered_as_down = attempts_before_concidered_as_down;
    store_attempts_days = store_attempts_days;
  })

-- `json.Unmarshal` into a `HealthcheckConfigResponse`.
unfoldable pub decode_healthcheck_config_response : Json → Option HealthcheckConfigResponse
unfolding decode_healthcheck_config_response_fields read_str read_bool read_num
decode_healthcheck_config_response = struct_of decode_healthcheck_config_response_fields
