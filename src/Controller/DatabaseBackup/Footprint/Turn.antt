-- ===== src/Controller/DatabaseBackup/Footprint/Turn.antt =====
-- A synchronisation of a DatabaseBackup stays within its footprint, with one identifier.
use databasus_operator.Prelude.{String, ◌==◌, ◌≡◌, true, false, not, List}
use databasus_operator.Api.DatabaseBackup.{DatabaseBackup}
use databasus_operator.Wire.Database.{DatabaseRequest}
use databasus_operator.Effects.{Env, Error}
use databasus_operator.Client.Request.{DatabasusClient}
use databasus_operator.Client.Database.{create_database, update_database}
use databasus_operator.Controller.DatabaseBackup
use databasus_operator.Controller.DatabaseBackup.Resolve.{PostgresSslMaterial}
use databasus_operator.Controller.DatabaseBackup.Build.{build_database_request}
use databasus_operator.Controller.DatabaseBackup.{database_backup_finalizer}
use databasus_operator.Controller.DatabaseBackup.Status.{set_ready_condition}
use databasus_operator.Controller.Outcome.{Outcome, panicked}
use databasus_operator.Controller.Silent.{
  resolve_storage_ref-Silent, resolve_notifier_refs-Silent, resolve_database_password-Silent,
  resolve_postgres_ssl-Silent,
}
use databasus_operator.Controller.DatabaseBackup.Footprint.Data.{
  IsBuilt, is_built, Effect, creates, updates,
}
use databasus_operator.Prelude.{inl, inr, Bool-cases, ap}
use databasus_operator.Effects.{ok, Res-cases, World, handle, pure}
use databasus_operator.Effects.Plain.{◌>>=◌}
use databasus_operator.Effects.Logs.{Adds, Adds-trans, Logs-pure}
use databasus_operator.Effects.Shares.{Shares, Logs-Shares, share_rules}
use databasus_operator.Wire.Database.{DatabaseResponse, decode_database_response}
use databasus_operator.Client.Request.Accepted.{do_request-Adds}
use databasus_operator.Client.Saved.{not_ok, not_created, refusal}
use databasus_operator.Controller.DatabaseBackup.Footprint.Stages.{
  report-Effect, report_failure-Effect, save_configs-Effect,
}

same_id : (b a : DatabaseResponse) → b ≡ a → b.id ≡ a.id
same_id b a e = ap (λ (d : DatabaseResponse). d.id) e

module _ {S : Type 0} (E : Env S) (c : DatabasusClient) (backup : DatabaseBackup)
    (live : not (E.is_zero_time backup.metadata.deletion_timestamp) ≡ false)
    (owned : not (E.contains_finalizer backup.metadata database_backup_finalizer) ≡ false) where
  module _ (logical : DatabaseBackup.is_physical backup.spec.database.postgresql ≡ false)
      (r : DatabaseRequest) (built : IsBuilt c backup r) (w : World S) (id : String) where
    create-Effect :
        (backup.status.database_id == "") ≡ true
        → ((a : DatabaseResponse) → (create_database E c r w).0 ≡ ok a → a.id ≡ id)
        → Adds (Effect E c backup id) w.log (create_database E c r w).1.log
    unfolding create_database
    create-Effect fresh same =
        do_request-Adds E "failed to unmarshal database response" decode_database_response
          not_created refusal (Effect E c backup id) c "POST" "/api/v1/databases/create" _ w
          λ t gives. creates t r live owned logical fresh built λ a fine. same a (gives a fine)

    update-Effect :
        (backup.status.database_id == "") ≡ false
        → ((a : DatabaseResponse)
            → (update_database E c (record r { id = backup.status.database_id }) w).0 ≡ ok a
            → a.id ≡ id)
        → Adds
            (Effect E c backup id)
            w.log
            (update_database E c (record r { id = backup.status.database_id }) w).1.log
    unfolding update_database
    update-Effect known same =
        do_request-Adds E "failed to unmarshal database response" decode_database_response not_ok
          refusal (Effect E c backup id) c "POST" "/api/v1/databases/update" _ w
          λ t gives. updates t r live owned logical known built λ a fine. same a (gives a fine)

    send_database-Effect :
        ((a : DatabaseResponse)
          → (DatabaseBackup.send_database E c backup r w).0 ≡ ok a
          → a.id ≡ id)
        → Adds (Effect E c backup id) w.log (DatabaseBackup.send_database E c backup r w).1.log
    send_database-Effect = elim (Bool-cases (backup.status.database_id == "")) [
      | inl fresh ↦ unfold DatabaseBackup.send_database in rw fresh (create-Effect fresh)
      | inr known ↦ unfold DatabaseBackup.send_database in rw known (update-Effect known)
    ]

  module _ (logical : DatabaseBackup.is_physical backup.spec.database.postgresql ≡ false) where
    -- The identifier is that of the answer, if there is one.
    built-Shares :
        (storage_id : String) (r : DatabaseRequest)
        → IsBuilt c backup r
        → Shares (Effect E c backup) (
            DatabaseBackup.send_database E c backup r >>= λ result.
            handle result
              (λ e. DatabaseBackup.Status.report_failure E backup "APISyncFailed" e)
              (λ resp. DatabaseBackup.save_configs E c backup storage_id resp.id))
    unfolding ◌>>=◌ handle
    built-Shares storage_id r built = record {
      at = λ w. elim (Res-cases (DatabaseBackup.send_database E c backup r w).0) [
        | inl (a, fine) ↦ (
          a.id,
          rw fine (
              Adds-trans
                (send_database-Effect logical r built w a.id (λ b e. same_id b a (cc (fine, e))))
                ((save_configs-Effect E c backup a.id live owned logical storage_id).at _)),
        )
        | inr (e, failed) ↦ (
          "",
          rw failed (
              Adds-trans (send_database-Effect logical r built w "" (λ b h. cc (failed, h))) (
                (report_failure-Effect E c backup "" live owned backup.status "APISyncFailed" e).at
                  _)),
        )
      ];
    }

    panic-Shares : Shares (Effect E c backup) (pure {S = S} panicked)
    panic-Shares = Logs-Shares "" _ (Logs-pure panicked)

    sync_database-Shares :
        (storage_id password : String) (ssl : PostgresSslMaterial) (ids : List String)
        → Shares (Effect E c backup) (
            DatabaseBackup.sync_database E c backup storage_id
              (build_database_request c backup password ssl ids))
    unfolding DatabaseBackup.sync_database
    sync_database-Shares storage_id password ssl ids =
        search (share_rules, built-Shares, is_built password ssl ids, panic-Shares)

    failure-Shares :
        (reason : String) (e : Error)
        → Shares (Effect E c backup) (DatabaseBackup.Status.report_failure E backup reason e)
    failure-Shares reason e =
        Logs-Shares "" _ (report_failure-Effect E c backup "" live owned backup.status reason e)

    resolve_secrets-Shares :
        (storage_id : String) (notifier_ids : List String)
        → Shares
            (Effect E c backup)
            (DatabaseBackup.resolve_secrets_and_sync E c backup storage_id notifier_ids)
    unfolding DatabaseBackup.resolve_secrets_and_sync DatabaseBackup.resolve_ssl_and_sync
    resolve_secrets-Shares storage_id notifier_ids =
        search
          (
            share_rules,
            resolve_database_password-Silent E backup,
            resolve_postgres_ssl-Silent E backup,
            sync_database-Shares,
            failure-Shares,
          )
          depth 10

  report-Shares :
      (reason message : String) (outcome : Outcome)
      → Shares (Effect E c backup) (DatabaseBackup.Status.report E backup reason message outcome)
  report-Shares reason message outcome =
      Logs-Shares "" _ (report-Effect E c backup "" live owned backup.status reason message outcome)

  pub sync-Shares : Shares (Effect E c backup) (DatabaseBackup.sync E c backup)
  unfolding DatabaseBackup.sync DatabaseBackup.resolve_notifiers_and_sync
      DatabaseBackup.reject_physical
  sync-Shares =
      search
        (
          share_rules,
          resolve_storage_ref-Silent E,
          resolve_notifier_refs-Silent E,
          resolve_secrets-Shares,
          report-Shares,
        )
        depth 12
