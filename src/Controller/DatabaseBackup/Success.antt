-- ===== src/Controller/DatabaseBackup/Success.antt =====
-- internal/controller/databasebackup_controller.go: a synchronisation of a DatabaseBackup that
-- nothing hinders, from its end backwards: what follows each step.
pub mod Requests
pub mod Steps
pub mod Ready
use databasus_operator.Prelude.{
  ℕ, Bool, String, ◌<>◌, ◌==◌, ◌≡◌, true, false, Option, none, some, List, ◌∷◌,
}
use databasus_operator.Api.Meta.{condition_true}
use databasus_operator.Api.DatabaseBackup.{DatabaseBackup, HealthcheckSpec}
use databasus_operator.Wire.Json.{Json}
use databasus_operator.Wire.Database.{
  DatabaseRequest, DatabaseResponse, encode_database_request, decode_database_response,
}
use databasus_operator.Wire.BackupConfig.{encode_backup_config_request}
use databasus_operator.Wire.Healthcheck.{
  encode_healthcheck_config_request, decode_healthcheck_config_response,
}
use databasus_operator.Effects.{
  Transport, KubeError, Res, Event, http, status_updated, database_backup_object, Env,
}
use databasus_operator.Client.Request.{DatabasusClient, request_of}
use databasus_operator.Client.Request.Accepted.{Accepted}
use databasus_operator.Client.Saved.{not_ok, not_created, described}
use databasus_operator.Controller.Outcome.{Outcome}
use databasus_operator.Controller.Written.{after_write, ready_backup}
use databasus_operator.Controller.DatabaseBackup.Wanted.{wanted_config, wanted_healthcheck}
use databasus_operator.Controller.DatabaseBackup.Footprint.Data.{with_workspace}

-- With the identifier of the database in the status.
abbrev pub known : DatabaseBackup → String → DatabaseBackup
known b id = record b { status = record b.status { database_id = id } }

module _ {S : Type 0} (E : Env S) (c : DatabasusClient) where
  -- The database is read, and the status written, with what the answer says of the database.
  pub data Refreshed (b : DatabaseBackup) (id : String) (old : List Event)
      : Outcome → List Event → Type 0 where
    refreshes :
        (t : Transport) (now : ℕ) (r : Option KubeError)
        → Refreshed b id old (after_write 60 r) (
            status_updated
              (database_backup_object
                (ready_backup E b b.status.database_id (described not_ok t) now))
              r
            ∷ http (request_of c "GET" ("/api/v1/databases/" <> id) none) t
            ∷ old)

  -- Before that the health check is saved, if the specification has one.
  pub data Monitored (b : DatabaseBackup) (id : String) (old : List Event)
      : Outcome → List Event → Type 0 where
    no_healthcheck :
        {o : Outcome} {log : List Event}
        → b.spec.healthcheck ≡ none
        → Refreshed b id old o log
        → Monitored b id old o log
    monitors :
        {o : Outcome} {log : List Event} (hc : HealthcheckSpec) (t : Transport)
        → b.spec.healthcheck ≡ some hc
        → Refreshed b id
            (http
                (request_of c "POST" "/api/v1/healthcheck-config"
                  (some (encode_healthcheck_config_request (wanted_healthcheck hc id))))
                t
              ∷ old)
            o
            log
        → Monitored b id old o log

  -- Before that the backup configuration is saved.
  pub data Configured (b : DatabaseBackup) (storage_id id : String) (old : List Event)
      : Outcome → List Event → Type 0 where
    configures :
        {o : Outcome} {log : List Event} (t : Transport)
        → Monitored
            (known b id)
            id
            (http
                (request_of c "POST" "/api/v1/backup-configs/save"
                  (some (encode_backup_config_request (wanted_config b.spec id storage_id))))
                t
              ∷ old)
            o
            log
        → Configured b storage_id id old o log

  abbrev pub creation : DatabaseRequest → Json
  creation request = encode_database_request (with_workspace c request)

  abbrev pub change : DatabaseBackup → DatabaseRequest → Json
  change b request = creation (record request { id = b.status.database_id })

  -- And before that the database is created or updated, and has the identifier of the answer.
  pub data Synced (b : DatabaseBackup) (storage_id : String) (request : DatabaseRequest)
      (old : List Event) : Outcome → List Event → Type 0 where
    creates :
        {o : Outcome} {log : List Event} (d : DatabaseResponse) (t : Transport)
        → (b.status.database_id == "") ≡ true
        → Accepted not_created decode_database_response d t
        → Configured b storage_id d.id
            (http (request_of c "POST" "/api/v1/databases/create" (some (creation request))) t
              ∷ old)
            o
            log
        → Synced b storage_id request old o log
    updates :
        {o : Outcome} {log : List Event} (d : DatabaseResponse) (t : Transport)
        → (b.status.database_id == "") ≡ false
        → Accepted not_ok decode_database_response d t
        → Configured b storage_id d.id
            (http (request_of c "POST" "/api/v1/databases/update" (some (change b request))) t
              ∷ old)
            o
            log
        → Synced b storage_id request old o log

  -- The API accepts a request, whatever the state outside is.
  abbrev pub Accepts : {A : Type 0} → String → (ℕ → Bool) → (Json → Option A) → Json → Type 0
  Accepts {A} path refuses decode body =
      (s : S)
      → (a : A) × Accepted refuses decode a (E.transport (request_of c "POST" path (some body)) s).0

  -- It accepts the health check of a specification, if there is one.
  abbrev pub AcceptsHealthcheck : String → Option HealthcheckSpec → Type 0
  AcceptsHealthcheck id none = Unit
  AcceptsHealthcheck id (some hc) =
      Accepts "/api/v1/healthcheck-config" not_ok decode_healthcheck_config_response
        (encode_healthcheck_config_request (wanted_healthcheck hc id))
