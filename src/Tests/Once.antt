-- ===== src/Tests/Once.antt =====
-- Two synchronisations of one DatabaseBackup.
use databasus_operator.Prelude.{some, suc, ◌≤◌, ◌≡◌, refl, [], ◌∷◌, ◌++◌}
use databasus_operator.Api.DatabaseBackup.{DatabaseBackup as DatabaseBackupObject}
use databasus_operator.Wire.Json.{obj, end}
use databasus_operator.Wire.Database.{decode_database_response}
use databasus_operator.Wire.BackupConfig.{decode_backup_config_response}
use databasus_operator.Wire.Healthcheck.{decode_healthcheck_config_response}
use databasus_operator.Effects.{World, Env, broken_body}
use databasus_operator.Effects.Plain.{◌>>=◌, mapped}
use databasus_operator.Effects.Fallible
use databasus_operator.Client.Request.{is_not_found}
use databasus_operator.Client.Database.{create_database, update_database, get_database}
use databasus_operator.Client.BackupConfig.{save_backup_config}
use databasus_operator.Client.Healthcheck.{save_healthcheck_config}
use databasus_operator.Controller.DatabaseBackup.{sync}
use databasus_operator.Controller.DatabaseBackup.Resolve.{
  resolve_storage_ref, resolve_notifier_refs, resolve_database_password, resolve_postgres_ssl,
}
use databasus_operator.Controller.DatabaseBackup.Build.{build_database_request}
use databasus_operator.System.Once.{begun, synced, written, creations, excuses}
use databasus_operator.System.Once.Run.{Life-creations}
use databasus_operator.Tests.Cluster.{Cluster, memory}
use databasus_operator.Tests.Objects.{client, cluster, ready_storage, plain_backup, answer, with_id}
use databasus_operator.Tests.Runs.{welcoming}

abbrev two_turns : World Cluster
two_turns = cluster ready_storage plain_backup (
    welcoming
    ++ (answer 200 (with_id "db-7")
        ∷ answer 200 (obj end)
        ∷ answer 200 (obj end)
        ∷ answer 200 (with_id "db-7")
        ∷ []))

abbrev after_one : World Cluster
after_one = (sync memory client plain_backup two_turns).1

abbrev synced_backup : DatabaseBackupObject
synced_backup = written after_one.log plain_backup

abbrev after_two : World Cluster
after_two = (sync memory client synced_backup after_one).1

-- The second turn updates the database that the first one created.
created_once :
    (creations client after_two.log ≡ 1)
    × (excuses client after_two.log ≡ 0)
    × (synced_backup.status.database_id ≡ "db-7")
unfolding sync ◌>>=◌ Fallible.◌>>=◌ mapped resolve_storage_ref resolve_notifier_refs
    resolve_database_password resolve_postgres_ssl build_database_request create_database
    update_database decode_database_response save_backup_config decode_backup_config_response
    save_healthcheck_config decode_healthcheck_config_response get_database is_not_found
created_once = (refl, refl, refl)

-- A cluster in which no status can be written.
abbrev forgetful : Env Cluster
forgetful = record memory {
  write_status =
      λ o s. (some (record { reason = "Conflict"; message = "the object was modified" }), s);
}

abbrev two_creations : World Cluster
two_creations = cluster ready_storage plain_backup (welcoming ++ welcoming)

abbrev after_first : World Cluster
after_first = (sync forgetful client plain_backup two_creations).1

abbrev after_second : World Cluster
after_second = (sync forgetful client (written after_first.log plain_backup) after_first).1

-- Where the write of the status fails, the next turn creates the database again.
created_twice : (creations client after_second.log ≡ 2) × (excuses client after_second.log ≡ 2)
unfolding sync ◌>>=◌ Fallible.◌>>=◌ mapped resolve_storage_ref resolve_notifier_refs
    resolve_database_password resolve_postgres_ssl build_database_request create_database
    update_database decode_database_response save_backup_config decode_backup_config_response
    save_healthcheck_config decode_healthcheck_config_response get_database is_not_found
created_twice = (refl, refl)

Life-creations_example : creations client after_two.log ≤ suc (excuses client after_two.log)
Life-creations_example =
    Life-creations memory client after_two (written after_two.log synced_backup)
      (synced (synced (begun two_turns.state plain_backup)))

-- Three turns, each of whose creations is answered by 201 and a body that cannot be read.
abbrev unreadable : World Cluster
unreadable =
    cluster ready_storage plain_backup
      (broken_body 201 "EOF" ∷ broken_body 201 "EOF" ∷ broken_body 201 "EOF" ∷ [])

abbrev turn : World Cluster → World Cluster
turn w = (sync memory client plain_backup w).1

created_unread :
    (creations client (turn (turn (turn unreadable))).log ≡ 3)
    × (excuses client (turn (turn (turn unreadable))).log ≡ 3)
unfolding sync ◌>>=◌ Fallible.◌>>=◌ mapped resolve_storage_ref resolve_notifier_refs
    resolve_database_password resolve_postgres_ssl build_database_request create_database
    decode_database_response
created_unread = (refl, refl)
