-- ===== src/Tests/Witnesses.antt =====
-- The theorems at concrete data.
use databasus_operator.Prelude.{
  false, String, ◌==◌, ◌≡◌, ◌↔◌, refl, true, none, some, List, [], ◌∷◌, map,
}
use databasus_operator.Api.Storage.{Storage as StorageObject}
use databasus_operator.Api.DatabaseBackup.{DatabaseBackup as DatabaseBackupObject}
use databasus_operator.Wire.Json.{obj, end}
use databasus_operator.Wire.Auth.{WorkspaceResponse}
use databasus_operator.Wire.Database.{DatabaseRequest, NotifierRef}
use databasus_operator.Effects.{found, database_backup_object, World, Body, ok}
use databasus_operator.Effects.Fallible.{◌>>=◌}
use databasus_operator.Effects.Shares.{Shares}
use databasus_operator.Effects.Logs.{Logs, Adds}
use databasus_operator.Client.Request.{is_not_found}
use databasus_operator.Client.Request.Gone.{NotFound, is_not_found_iff}
use databasus_operator.Client.Auth.{choose_workspace}
use databasus_operator.Client.Auth.Choice.{IsChosen, choose_workspace_iff}
use databasus_operator.Controller.Storage
use databasus_operator.Controller.Storage.Footprint as StorageFootprint
use databasus_operator.Controller.Notifier
use databasus_operator.Controller.Notifier.Footprint as NotifierFootprint
use databasus_operator.Controller.DatabaseBackup
use databasus_operator.Controller.DatabaseBackup.Footprint as BackupFootprint
use databasus_operator.Controller.DatabaseBackup.Total.{IsReturned, reconcile-IsReturned}
use databasus_operator.Controller.DatabaseBackup.Physical.{IsLocal, physical-IsLocal}
use databasus_operator.Controller.DatabaseBackup.References.{
  AreReady, resolve_notifier_refs-AreReady,
}
use databasus_operator.Controller.DatabaseBackup.Resolve.{no_ssl, resolve_notifier_refs}
use databasus_operator.Controller.DatabaseBackup.Build.{
  build_database_request, postgresql_logical_request,
}
use databasus_operator.Controller.DatabaseBackup.Sections.{
  HasSection, sections, build_database_request-HasSection, build_database_request-notifiers,
}
use databasus_operator.Controller.DatabaseBackup.References.{resolve_storage_ref_iff}
use databasus_operator.Controller.DatabaseBackup.Resolve.{is_true, resolve_storage_ref}
use databasus_operator.Startup.{authenticate_from_secret}
use databasus_operator.Startup.HandedOut.{IsSetUp, authenticate_from_secret-IsSetUp}
use databasus_operator.System.Lifecycle.{reconcile_object, reconcile_object-IsAllowed}
use databasus_operator.System.Lifecycle.Phase.{IsAllowed}
use databasus_operator.Controller.Authority.{Authorized}
use databasus_operator.System.Objects.{storage_turn, backup_turn, here, next}
use databasus_operator.System.Release.{Reach-Guarded}
use databasus_operator.System.Release.Guard.{Guarded}
use databasus_operator.System.Confirm.{Reach-Confirmed}
use databasus_operator.System.Confirm.Guard.{Confirmed}
use databasus_operator.System.Authority.{Reach-Authorized}
use databasus_operator.Tests.Cluster.{Cluster, memory, memory_finalizers, memory_conditions}
use databasus_operator.Tests.Objects.{
  client, key, postgresql, plain_storage, plain_backup, notifier, backup, answer, with_error,
}
use databasus_operator.Tests.Runs.{deleted_storage, new_backup, starting}

abbrev released : World Cluster
released = deleted_storage (answer 204 (obj end) ∷ [])

Reach-Guarded_example : Guarded memory client (Storage.reconcile memory client key released).1.log
Reach-Guarded_example =
    Reach-Guarded memory client memory_finalizers (next here (storage_turn released key)) tt

Reach-Confirmed_example :
    Confirmed memory client (DatabaseBackup.reconcile memory client key new_backup).1.log
Reach-Confirmed_example =
    Reach-Confirmed memory client memory_conditions (next here (backup_turn new_backup key)) tt

Reach-Authorized_example :
    Adds (Authorized client) [] (DatabaseBackup.reconcile memory client key new_backup).1.log
Reach-Authorized_example = Reach-Authorized memory client (next here (backup_turn new_backup key))

reconcile_storage-Effect_example :
    Logs
      (StorageFootprint.Effect memory client plain_storage)
      (Storage.reconcile_storage memory client plain_storage)
reconcile_storage-Effect_example =
    StorageFootprint.reconcile_storage-Effect memory client plain_storage

reconcile_notifier-Effect_example :
    Logs
      (NotifierFootprint.Effect memory client notifier)
      (Notifier.reconcile_notifier memory client notifier)
reconcile_notifier-Effect_example =
    NotifierFootprint.reconcile_notifier-Effect memory client notifier

reconcile-IsReturned_example : IsReturned (DatabaseBackup.reconcile memory client key new_backup).0
reconcile-IsReturned_example = reconcile-IsReturned memory client key new_backup

abbrev physical_backup : DatabaseBackupObject
physical_backup = backup "WAL_V1" ("databasus.io/databasebackup-cleanup" ∷ []) "db-7"

physical-IsLocal_example :
    Logs IsLocal (DatabaseBackup.reconcile_database_backup memory client physical_backup)
unfolding DatabaseBackup.is_physical
physical-IsLocal_example = physical-IsLocal memory client physical_backup refl refl

abbrev gone : Body
gone = record { text = ""; json = some (with_error "record not found") }

is_not_found_iff_example : (is_not_found 400 gone ≡ true) ↔ NotFound 400 gone
is_not_found_iff_example = is_not_found_iff 400 gone

abbrev workspaces : List WorkspaceResponse
workspaces = record { id = "ws-1"; name = "dev" } ∷ record { id = "ws-2"; name = "prod" } ∷ []

choose_workspace_iff_example :
    (choose_workspace "prod" workspaces ≡ ok "ws-2") ↔ IsChosen "prod" "ws-2" workspaces
choose_workspace_iff_example = choose_workspace_iff "prod" "ws-2" workspaces

resolve_notifier_refs-AreReady_example :
    AreReady memory "prod" ("team" ∷ "team" ∷ []) ("no-1" ∷ "no-1" ∷ [])
unfolding resolve_notifier_refs ◌>>=◌
resolve_notifier_refs-AreReady_example =
    resolve_notifier_refs-AreReady memory "prod" ("team" ∷ "team" ∷ []) ("no-1" ∷ "no-1" ∷ [])
      new_backup refl

abbrev built : DatabaseRequest
built = record {
  id = "";
  workspace_id = "ws-1";
  name = "shop";
  type = "POSTGRES_LOGICAL";
  postgresql_logical = some (postgresql_logical_request (postgresql "PG_DUMP") "s3cret" no_ssl);
  mysql = none;
  mariadb = none;
  mongodb = none;
  notifiers = record { id = "no-1"; workspace_id = "ws-1" } ∷ [];
}

build_database_request-HasSection_example :
    HasSection "POSTGRES" "s3cret" "POSTGRES_LOGICAL" (sections built)
unfolding build_database_request
build_database_request-HasSection_example =
    build_database_request-HasSection client plain_backup "s3cret" no_ssl ("no-1" ∷ []) built refl

build_database_request-notifiers_example :
    (map (λ (n : NotifierRef). n.id) built.notifiers ≡ "no-1" ∷ [])
    × (map (λ (n : NotifierRef). n.workspace_id) built.notifiers ≡ "ws-1" ∷ [])
unfolding build_database_request
build_database_request-notifiers_example =
    build_database_request-notifiers client plain_backup "s3cret" no_ssl ("no-1" ∷ []) built refl

reconcile_object-IsAllowed_example :
    Logs
      (IsAllowed memory client (database_backup_object plain_backup))
      (reconcile_object memory client (database_backup_object plain_backup))
reconcile_object-IsAllowed_example =
    reconcile_object-IsAllowed memory client memory_finalizers (database_backup_object plain_backup)

abbrev url : String
url = "http://databasus:4005"

authenticate_from_secret-IsSetUp_example :
    IsSetUp memory url key
      (authenticate_from_secret memory url "prod" "main" starting).0
      (authenticate_from_secret memory url "prod" "main" starting).1.log
authenticate_from_secret-IsSetUp_example =
    authenticate_from_secret-IsSetUp memory url "prod" "main" starting

resolve_storage_ref_iff_example :
    ((resolve_storage_ref memory "prod" "disk" new_backup).0 ≡ ok "st-1") ↔ (
      (s : StorageObject) × ((memory.read_storage
          (record { namespace = "prod"; name = "disk" })
          new_backup.state).0
        ≡ found s)
      × (s.status.id ≡ "st-1")
      × (("st-1" == "") ≡ false)
      × (is_true (memory.find_status_condition s.status.conditions "Ready") ≡ true))
resolve_storage_ref_iff_example = resolve_storage_ref_iff memory "prod" "disk" "st-1" new_backup
