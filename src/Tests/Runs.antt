-- ===== src/Tests/Runs.antt =====
-- Runs of the reconcilers in the cluster in memory.
use databasus_operator.Prelude.{String, ◌≡◌, refl, none, some, List, [], ◌∷◌, map}
use databasus_operator.Wire.Json.{Json, obj, end, field, str, arr, cons, nil}
use databasus_operator.Effects.{
  Event, http, updated, status_updated, World, Transport, storage_object, notifier_object,
  database_backup_object, ok, Res,
}
use databasus_operator.Effects.Plain.{◌>>=◌, mapped}
use databasus_operator.Effects.Fallible
use databasus_operator.Client.Request.{DatabasusClient, parse_error, is_not_found}
use databasus_operator.Client.Storage.{delete_storage}
use databasus_operator.Controller.Outcome.{Outcome, returned}
use databasus_operator.Controller.Storage
use databasus_operator.Controller.DatabaseBackup
use databasus_operator.Controller.DatabaseBackup.Resolve.{
  resolve_storage_ref, resolve_notifier_refs, resolve_database_password, resolve_postgres_ssl,
}
use databasus_operator.Controller.DatabaseBackup.Build.{build_database_request}
use databasus_operator.Client.Database.{create_database, get_database}
use databasus_operator.Client.BackupConfig.{save_backup_config}
use databasus_operator.Client.Healthcheck.{save_healthcheck_config}
use databasus_operator.Wire.Database.{decode_database_response}
use databasus_operator.Wire.BackupConfig.{decode_backup_config_response}
use databasus_operator.Wire.Healthcheck.{decode_healthcheck_config_response}
use databasus_operator.Wire.Auth.{decode_sign_in_response, decode_list_workspaces_response}
use databasus_operator.Client.Auth.{choose_workspace}
use databasus_operator.Startup.{authenticate_from_secret}
use databasus_operator.Tests.Cluster.{Cluster, memory}
use databasus_operator.Tests.Objects.{
  client, key, storage, ready_storage, backup, answer, with_id, with_error, cluster,
}

-- What a call was, in short.
abbrev pub Call : Type 0
Call = String × String

abbrev call_of : Event → Call
call_of (http r t) = (r.method, r.url)
call_of (updated (storage_object o) r) = ("update", "storage")
call_of (updated (notifier_object o) r) = ("update", "notifier")
call_of (updated (database_backup_object o) r) = ("update", "backup")
call_of (status_updated (storage_object o) r) = ("status", o.status.id)
call_of (status_updated (notifier_object o) r) = ("status", o.status.id)
call_of (status_updated (database_backup_object o) r) = ("status", o.status.database_id)

abbrev calls : World Cluster → List Call
calls w = map call_of w.log

abbrev pub deleted_storage : List Transport → World Cluster
deleted_storage answers =
    cluster (storage (some 9) ("databasus.io/storage-cleanup" ∷ []) "st-1") (backup "" [] "")
      answers

delete_storage_run : Outcome × World Cluster
unfolding Storage.reconcile
delete_storage_run =
    Storage.reconcile memory client key (deleted_storage (answer 204 (obj end) ∷ []))

-- The record is deleted, then the finalizer is taken off.
storage_is_released :
    calls delete_storage_run.1
    ≡ ("update", "storage") ∷ ("DELETE", "http://databasus:4005/api/v1/storages/st-1") ∷ []
unfolding delete_storage_run ◌>>=◌ delete_storage mapped
storage_is_released = refl

refuse_storage_run : Outcome × World Cluster
unfolding Storage.reconcile ◌>>=◌ delete_storage mapped
refuse_storage_run =
    Storage.reconcile memory client key (deleted_storage (answer 500 (with_error "in use") ∷ []))

-- The API refuses: the finalizer stays, and the next turn is in ten seconds.
storage_stays :
    (calls refuse_storage_run.1 ≡ ("DELETE", "http://databasus:4005/api/v1/storages/st-1") ∷ [])
    × (refuse_storage_run.0 ≡ returned 10 none)
unfolding refuse_storage_run parse_error is_not_found
storage_stays = (refl, refl)

-- Answers to every request of a first synchronisation.
abbrev pub welcoming : List Transport
welcoming =
    answer 201 (with_id "db-7")
    ∷ answer 200 (obj end)
    ∷ answer 200 (obj end)
    ∷ answer 200 (with_id "db-7")
    ∷ []

abbrev pub new_backup : World Cluster
new_backup =
    cluster ready_storage (backup "PG_DUMP" ("databasus.io/databasebackup-cleanup" ∷ []) "")
      welcoming

new_backup_run : Outcome × World Cluster
unfolding DatabaseBackup.reconcile
new_backup_run = DatabaseBackup.reconcile memory client key new_backup

-- A new database: created, configured, monitored, read, and then Ready.
backup_is_synced :
    (calls new_backup_run.1
      ≡ ("status", "db-7")
        ∷ ("GET", "http://databasus:4005/api/v1/databases/db-7")
        ∷ ("POST", "http://databasus:4005/api/v1/healthcheck-config")
        ∷ ("POST", "http://databasus:4005/api/v1/backup-configs/save")
        ∷ ("POST", "http://databasus:4005/api/v1/databases/create")
        ∷ [])
    × (new_backup_run.0 ≡ returned 60 none)
unfolding new_backup_run ◌>>=◌ Fallible.◌>>=◌ mapped resolve_storage_ref resolve_notifier_refs
    resolve_database_password resolve_postgres_ssl build_database_request create_database
    decode_database_response save_backup_config decode_backup_config_response
    save_healthcheck_config decode_healthcheck_config_response get_database is_not_found
backup_is_synced = (refl, refl)

abbrev named : String → String → Json
named id name = obj (field "id" (str id) (field "name" (str name) end))

-- Two workspaces, as the API lists them.
abbrev workspaces : Json
workspaces =
    obj (field "workspaces" (arr (cons (named "ws-1" "dev") (cons (named "ws-2" "prod") nil))) end)

abbrev pub saving : World Cluster
saving = cluster ready_storage (backup "PG_DUMP" [] "") (answer 200 (with_id "st-1") ∷ [])

-- The answers to a sign-in, to the list of the workspaces and to the health check.
abbrev pub starting : World Cluster
starting = cluster ready_storage (backup "PG_DUMP" [] "") (
    answer 200 (obj (field "token" (str "t0k3n") end))
    ∷ answer 200 workspaces
    ∷ answer 200 (obj end)
    ∷ [])

start_run : Res DatabasusClient × World Cluster
unfolding authenticate_from_secret
start_run = authenticate_from_secret memory "http://databasus:4005" "prod" "main" starting

-- The workspace is found by its name.
operator_starts :
    (start_run.0
      ≡ ok (record { base_url = "http://databasus:4005"; token = "t0k3n"; workspace_id = "ws-2" }))
    × (calls start_run.1
        ≡ ("GET", "http://databasus:4005/api/v1/system/health")
          ∷ ("GET", "http://databasus:4005/api/v1/workspaces")
          ∷ ("POST", "http://databasus:4005/api/v1/users/signin")
          ∷ [])
unfolding start_run ◌>>=◌ Fallible.◌>>=◌ Fallible.wrap_error decode_sign_in_response
    decode_list_workspaces_response choose_workspace
operator_starts = (refl, refl)
