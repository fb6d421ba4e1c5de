-- ===== src/Client/Saved.antt =====
-- The requests that save something: where they succeed, the answer was accepted.
use databasus_operator.Prelude.{
  ℕ, String, ◌≡◌, ◌&&◌, Bool, not, nat_eq, none, some, Option, ◌∷◌, if◌then◌else◌,
}
use databasus_operator.Wire.Json.{Json, unmarshal_value}
use databasus_operator.Wire.Storage.{StorageRequest, StorageResponse, decode_storage_response}
use databasus_operator.Wire.Notifier.{NotifierRequest, NotifierResponse, decode_notifier_response}
use databasus_operator.Wire.Database.{DatabaseRequest, DatabaseResponse, decode_database_response}
use databasus_operator.Wire.BackupConfig.{
  BackupConfigRequest, BackupConfigResponse, decode_backup_config_response,
}
use databasus_operator.Wire.Healthcheck.{
  HealthcheckConfigRequest, HealthcheckConfigResponse, decode_healthcheck_config_response,
}
use databasus_operator.Effects.{
  Error, ok, Transport, no_response, broken_body, response, http, World, Env,
}
use databasus_operator.Client.Request.{DatabasusClient, request_of, parse_error, Reply}
use databasus_operator.Client.Request.Accepted.{Accepted, do_request-Accepted}
use databasus_operator.Client.Storage.{save_storage}
use databasus_operator.Client.Notifier.{save_notifier}
use databasus_operator.Client.Database.{create_database, update_database}
use databasus_operator.Client.BackupConfig.{save_backup_config}
use databasus_operator.Client.Healthcheck.{save_healthcheck_config}

abbrev pub not_ok : ℕ → Bool
not_ok status = not (nat_eq status 200)

abbrev pub not_created : ℕ → Bool
not_created status = not (nat_eq status 201) && not (nat_eq status 200)

-- The database that an answer describes, if its status is not refused.
abbrev pub described : (ℕ → Bool) → Transport → Option DatabaseResponse
described refuses (no_response e) = none
described refuses (broken_body status e) = none
described refuses (response status body) =
    if refuses status then none else unmarshal_value decode_database_response body.json

abbrev pub refusal : Reply → Error
refusal reply = parse_error reply.status reply.body

module _ {S : Type 0} (c : DatabasusClient) where
  -- One request was added to the log, a POST to the path, and its answer was accepted.
  abbrev pub IsPosted :
      {A : Type 0} → String → (ℕ → Bool) → (Json → Option A) → A → World S → World S → Type 0
  IsPosted path refuses decode a v w =
      (body : Json) × ((t : Transport) × (w.log
          ≡ http (request_of c "POST" path (some body)) t ∷ v.log)
        × Accepted refuses decode a t)

module _ {S : Type 0} (E : Env S) (c : DatabasusClient) (w : World S) where
  pub save_storage-IsPosted :
      (r : StorageRequest) (a : StorageResponse)
      → (save_storage E c r w).0 ≡ ok a
      → IsPosted c "/api/v1/storages" not_ok decode_storage_response a w (save_storage E c r w).1
  unfolding save_storage
  save_storage-IsPosted r a h = (
    _,
    do_request-Accepted E "failed to unmarshal storage response" decode_storage_response not_ok
        refusal c "POST" "/api/v1/storages" _ a w h,
  )

  pub save_notifier-IsPosted :
      (r : NotifierRequest) (a : NotifierResponse)
      → (save_notifier E c r w).0 ≡ ok a
      → IsPosted c "/api/v1/notifiers" not_ok decode_notifier_response a w (save_notifier E c r w).1
  unfolding save_notifier
  save_notifier-IsPosted r a h = (
    _,
    do_request-Accepted E "failed to unmarshal notifier response" decode_notifier_response not_ok
        refusal c "POST" "/api/v1/notifiers" _ a w h,
  )

  pub create_database-IsPosted :
      (r : DatabaseRequest) (a : DatabaseResponse)
      → (create_database E c r w).0 ≡ ok a
      → IsPosted c "/api/v1/databases/create" not_created decode_database_response a w
          (create_database E c r w).1
  unfolding create_database
  create_database-IsPosted r a h = (
    _,
    do_request-Accepted E "failed to unmarshal database response" decode_database_response
        not_created refusal c "POST" "/api/v1/databases/create" _ a w h,
  )

  pub update_database-IsPosted :
      (r : DatabaseRequest) (a : DatabaseResponse)
      → (update_database E c r w).0 ≡ ok a
      → IsPosted c "/api/v1/databases/update" not_ok decode_database_response a w
          (update_database E c r w).1
  unfolding update_database
  update_database-IsPosted r a h = (
    _,
    do_request-Accepted E "failed to unmarshal database response" decode_database_response not_ok
        refusal c "POST" "/api/v1/databases/update" _ a w h,
  )

  pub save_backup_config-IsPosted :
      (r : BackupConfigRequest) (a : BackupConfigResponse)
      → (save_backup_config E c r w).0 ≡ ok a
      → IsPosted c "/api/v1/backup-configs/save" not_ok decode_backup_config_response a w
          (save_backup_config E c r w).1
  unfolding save_backup_config
  save_backup_config-IsPosted r a h = (
    _,
    do_request-Accepted E "failed to unmarshal backup config response" decode_backup_config_response
        not_ok refusal c "POST" "/api/v1/backup-configs/save" _ a w h,
  )

  pub save_healthcheck_config-IsPosted :
      (r : HealthcheckConfigRequest) (a : HealthcheckConfigResponse)
      → (save_healthcheck_config E c r w).0 ≡ ok a
      → IsPosted c "/api/v1/healthcheck-config" not_ok decode_healthcheck_config_response a w
          (save_healthcheck_config E c r w).1
  unfolding save_healthcheck_config
  save_healthcheck_config-IsPosted r a h = (
    _,
    do_request-Accepted E "failed to unmarshal healthcheck config response"
        decode_healthcheck_config_response not_ok refusal c "POST" "/api/v1/healthcheck-config" _ a
        w h,
  )
