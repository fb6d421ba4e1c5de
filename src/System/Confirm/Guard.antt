-- ===== src/System/Confirm/Guard.antt =====
-- When the status of an object may say that it is Ready.
use databasus_operator.Prelude.{
  ℤ, ℕ, String, ◌<>◌, ◌≡◌, refl, Bool, true, false, none, some, Option, List, [], ◌∷◌,
}
use databasus_operator.Api.Meta.{Condition, condition_false}
use databasus_operator.Wire.Json.{Json}
use databasus_operator.Wire.Storage.{StorageResponse, decode_storage_response}
use databasus_operator.Wire.Notifier.{NotifierResponse, decode_notifier_response}
use databasus_operator.Wire.Database.{DatabaseResponse, decode_database_response}
use databasus_operator.Wire.BackupConfig.{BackupConfigResponse, decode_backup_config_response}
use databasus_operator.Wire.Healthcheck.{
  HealthcheckConfigResponse, decode_healthcheck_config_response,
}
use databasus_operator.Effects.{
  Event, http, updated, status_updated, Object, storage_object, notifier_object,
  database_backup_object, Env, HttpRequest, Transport, KubeError,
}
use databasus_operator.Effects.Guards.{GuardedBy, AllowedBy}
use databasus_operator.Effects.Logs.{Logs, log_rules}
use databasus_operator.Effects.Laws.{ConditionLaws}
use databasus_operator.Client.Request.{DatabasusClient, request_of, do_request}
use databasus_operator.Client.Request.Accepted.{Accepted}
use databasus_operator.Client.Saved.{not_ok, not_created}
use databasus_operator.Controller.DatabaseBackup.Resolve.{is_true}

module _ (c : DatabasusClient) where
  -- The latest event is a POST to the path, and its answer was accepted.
  abbrev pub IsPost :
      {A : Type 0} → String → (ℕ → Bool) → (Json → Option A) → A → List Event → Type 0
  IsPost path refuses decode a [] = ⊥
  IsPost path refuses decode a (http r t ∷ _) =
      ((body : Json) × (r ≡ request_of c "POST" path (some body))) × Accepted refuses decode a t
  IsPost path refuses decode a (updated _ _ ∷ _) = ⊥
  IsPost path refuses decode a (status_updated _ _ ∷ _) = ⊥

  abbrev pub IsStored : String → List Event → Type 0
  IsStored id old =
      (a : StorageResponse) × (a.id ≡ id)
      × IsPost "/api/v1/storages" not_ok decode_storage_response a old

  abbrev pub IsSubscribed : String → List Event → Type 0
  IsSubscribed id old =
      (a : NotifierResponse) × (a.id ≡ id)
      × IsPost "/api/v1/notifiers" not_ok decode_notifier_response a old

  -- The record of a database was just created or updated, and got the identifier.
  pub data IsRecorded (id : String) : List Event → Type 0 where
    created :
        {old : List Event} (a : DatabaseResponse)
        → a.id ≡ id
        → IsPost "/api/v1/databases/create" not_created decode_database_response a old
        → IsRecorded id old
    renewed :
        {old : List Event} (a : DatabaseResponse)
        → a.id ≡ id
        → IsPost "/api/v1/databases/update" not_ok decode_database_response a old
        → IsRecorded id old

  -- Then its backup configuration was saved.
  pub data IsConfigured (id : String) : List Event → Type 0 where
    configured :
        {e : Event} {old : List Event} (a : BackupConfigResponse)
        → IsPost "/api/v1/backup-configs/save" not_ok decode_backup_config_response a (e ∷ old)
        → IsRecorded id old
        → IsConfigured id (e ∷ old)

  -- Then its health check was saved, if there is one.
  pub data IsMonitored (id : String) : List Event → Type 0 where
    unmonitored : {old : List Event} → IsConfigured id old → IsMonitored id old
    monitored :
        {e : Event} {old : List Event} (a : HealthcheckConfigResponse)
        → IsPost "/api/v1/healthcheck-config" not_ok decode_healthcheck_config_response a (e ∷ old)
        → IsConfigured id old
        → IsMonitored id (e ∷ old)

  -- Then its record was read, whatever came of it, or no request could be made of its identifier.
  pub data IsSynced (id : String) : List Event → Type 0 where
    unread : {old : List Event} → IsMonitored id old → IsSynced id old
    read :
        {old : List Event} (t : Transport)
        → IsMonitored id old
        → IsSynced id (http (request_of c "GET" ("/api/v1/databases/" <> id) none) t ∷ old)

  abbrev pub IsConfirmed : Object → List Event → Type 0
  IsConfirmed (storage_object o) old = IsStored o.status.id old
  IsConfirmed (notifier_object o) old = IsSubscribed o.status.id old
  IsConfirmed (database_backup_object o) old = IsSynced o.status.database_id old

abbrev pub conditions_of : Object → List Condition
conditions_of (storage_object o) = o.status.conditions
conditions_of (notifier_object o) = o.status.conditions
conditions_of (database_backup_object o) = o.status.conditions

module _ {S : Type 0} (E : Env S) (c : DatabasusClient) where
  -- The condition Ready of the object is True.
  abbrev pub IsReady : Object → Type 0
  IsReady o = is_true (E.find_status_condition (conditions_of o) "Ready") ≡ true

  abbrev pub Guard : Event → List Event → Type 0
  Guard (http r t) old = Unit
  Guard (updated o r) old = Unit
  Guard (status_updated o r) old = IsReady o → IsConfirmed c o old

  -- Each status that says Ready stands right after the requests that confirm it.
  abbrev pub Confirmed : List Event → Type 0
  Confirmed = GuardedBy Guard

  abbrev pub Harmless : Event → Type 0
  Harmless = AllowedBy Guard

  http-Harmless : (r : HttpRequest) (t : Transport) → Harmless (http r t)
  http-Harmless r t old = tt

  pub update-Harmless : (o : Object) (r : Option KubeError) → Harmless (updated o r)
  update-Harmless o r old = tt

  pub do_request-Harmless :
      (method path : String) (body : Option Json) → Logs Harmless (do_request E c method path body)
  unfolding do_request
  do_request-Harmless method path body = search (log_rules, http-Harmless)

module _ {S : Type 0} (E : Env S) where
  -- A condition that was set to False is not True.
  pub false-Unready :
      (k : ConditionLaws E.kube) (cs : List Condition) (generation : ℤ) (now : ℕ)
      (reason message : String)
      → is_true (
          E.find_status_condition
            (E.set_status_condition cs (record {
              type = "Ready";
              status = condition_false;
              observed_generation = generation;
              last_transition_time = now;
              reason = reason;
              message = message;
            }))
            "Ready")
        ≡ false
  false-Unready k cs generation now reason message =
      let (d, found, status, _, _, _) = k.find-set cs (record {
        type = "Ready";
        status = condition_false;
        observed_generation = generation;
        last_transition_time = now;
        reason = reason;
        message = message;
      }) in
      rw found (rw status refl)
