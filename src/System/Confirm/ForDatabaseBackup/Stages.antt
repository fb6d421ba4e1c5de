-- ===== src/System/Confirm/ForDatabaseBackup/Stages.antt =====
-- From the request for the database to the end: what is confirmed when.
use databasus_operator.Prelude.{
  String, Option, Bool-cases, Option-cases, ◌<>◌, ◌==◌, ◌≡◌, refl, none, some, inl, inr,
}
use databasus_operator.Api.DatabaseBackup.{DatabaseBackup, DatabaseBackupStatus, HealthcheckSpec}
use databasus_operator.Wire.Database.{DatabaseRequest, DatabaseResponse}
use databasus_operator.Effects.{Res, ok, err, handle, M, World, Env, Res-cases}
use databasus_operator.Effects.Plain.{◌>>=◌}
use databasus_operator.Effects.Fallible
use databasus_operator.Effects.Guards.{Keeps, Keeps-pure, Adds-GuardedBy, handle_some-elim}
use databasus_operator.Effects.Laws.{ConditionLaws}
use databasus_operator.Client.Request.{DatabasusClient}
use databasus_operator.Client.Request.Gone.{sent, do_request-sent, do_request-unsent}
use databasus_operator.Client.Request.Accepted.{reply-world}
use databasus_operator.Client.Database.{read_database, get_database}
use databasus_operator.Client.BackupConfig.{save_backup_config}
use databasus_operator.Client.Healthcheck.{save_healthcheck_config}
use databasus_operator.Client.Saved.{
  create_database-IsPosted, update_database-IsPosted, save_backup_config-IsPosted,
  save_healthcheck_config-IsPosted,
}
use databasus_operator.Controller.Outcome.{Outcome, panicked}
use databasus_operator.Controller.DatabaseBackup
use databasus_operator.Controller.DatabaseBackup.Build.{
  build_healthcheck_request, build_backup_config_request,
}
use databasus_operator.System.Confirm.Guard.{
  Guard, Confirmed, IsRecorded, created, renewed, IsConfigured, configured, IsMonitored,
  unmonitored, monitored, IsSynced, unread, read,
}
use databasus_operator.System.Confirm.ForDatabaseBackup.Calls.{
  report_failure-Harmless, get_database-Harmless, healthcheck-Harmless, config-Harmless,
  send_database-Harmless,
}

pub refreshed-database_id :
    (status : DatabaseBackupStatus) (r : Res (Option DatabaseResponse))
    → (DatabaseBackup.Status.refreshed status r).database_id ≡ status.database_id
unfolding DatabaseBackup.Status.refreshed
refreshed-database_id status (err e) = refl
refreshed-database_id status (ok none) = refl
refreshed-database_id status (ok (some db)) = refl

module _ {S : Type 0} (E : Env S) (c : DatabasusClient) where
  -- The request that reads the record is sent, or it cannot be built.
  get_database-IsSynced :
      (id : String) (w : World S)
      → IsMonitored c id w.log
      → IsSynced c id (get_database E c id w).1.log
  unfolding get_database Fallible.◌>>=◌
  get_database-IsSynced id w h =
      elim (Option-cases (E.url_error (c.base_url <> ("/api/v1/databases/" <> id)))) [
        | inl e ↦ rw (do_request-sent E c "GET" ("/api/v1/databases/" <> id) none w e) (
            rw
              (reply-world (read_database E c)
                (sent E c "GET" ("/api/v1/databases/" <> id) none w).0 _)
              (read _ h))
        | inr (m, e) ↦
            rw (do_request-unsent E c "GET" ("/api/v1/databases/" <> id) none w e) (unread h)
      ]

module _ {S : Type 0} (E : Env S) (c : DatabasusClient) (k : ConditionLaws E.kube) where
  report_success-Confirmed :
      (o : DatabaseBackup) (w : World S)
      → IsSynced c o.status.database_id w.log
      → Confirmed E c w.log
      → Confirmed E c (DatabaseBackup.Status.report_success E o w).1.log
  unfolding DatabaseBackup.Status.report_success DatabaseBackup.Status.set_ready_condition ◌>>=◌
  report_success-Confirmed o w synced g = ((λ ready. synced), g)

  module _ (o : DatabaseBackup) (id : String) (same : o.status.database_id ≡ id) where
    refresh_status-Confirmed :
        (w : World S)
        → IsMonitored c id w.log
        → Confirmed E c w.log
        → Confirmed E c (DatabaseBackup.refresh_status E c o id w).1.log
    unfolding DatabaseBackup.refresh_status ◌>>=◌
    refresh_status-Confirmed w h g =
        let after : DatabaseBackup = record o {
          status = DatabaseBackup.Status.refreshed o.status (get_database E c id w).0;
        } in
        report_success-Confirmed after (get_database E c id w).1
          (rw (refreshed-database_id o.status (get_database E c id w).0)
            (rw same (get_database-IsSynced E c id w h)))
          (Adds-GuardedBy ((get_database-Harmless E c k id).at w) g)

    health-Confirmed :
        (w : World S) (hc : HealthcheckSpec)
        → IsConfigured c id w.log
        → Confirmed E c w.log
        → Confirmed E c
            ((save_healthcheck_config E c (build_healthcheck_request hc id) >>= λ result.
                handle result
                  (λ e. DatabaseBackup.Status.report_failure E o "HealthcheckSyncFailed" e)
                  (λ resp. DatabaseBackup.refresh_status E c o id))
              w).1.log
    unfolding ◌>>=◌
    health-Confirmed w hc h g =
        let r = build_healthcheck_request hc id in
        let kept : Confirmed E c (save_healthcheck_config E c r w).1.log =
          Adds-GuardedBy ((healthcheck-Harmless E c k r).at w) g in
        elim (Res-cases (save_healthcheck_config E c r w).0) [
          | inl (a, fine) ↦
              let (body, (t, logged, answer)) = save_healthcheck_config-IsPosted E c w r a fine in
              let posted : IsMonitored c id (save_healthcheck_config E c r w).1.log =
                rw logged (monitored a ((body, refl), answer) h) in
              rw fine (refresh_status-Confirmed (save_healthcheck_config E c r w).1 posted kept)
          | inr (e, failed) ↦ rw failed (
              Adds-GuardedBy ((report_failure-Harmless E c k o "HealthcheckSyncFailed" e).at _)
                kept)
        ]

    save_healthcheck-Confirmed :
        (w : World S)
        → IsConfigured c id w.log
        → Confirmed E c w.log
        → Confirmed E c (DatabaseBackup.save_healthcheck E c o id w).1.log
    unfolding DatabaseBackup.save_healthcheck
    save_healthcheck-Confirmed w h g =
        handle_some-elim (λ (m : M S Outcome). Confirmed E c (m w).1.log) o.spec.healthcheck _ _
          (λ hc. health-Confirmed w hc h g) (refresh_status-Confirmed w (unmonitored h) g)

  module _ (o : DatabaseBackup) where
    save_configs-Confirmed :
        (storage_id id : String) (w : World S)
        → IsRecorded c id w.log
        → Confirmed E c w.log
        → Confirmed E c (DatabaseBackup.save_configs E c o storage_id id w).1.log
    unfolding DatabaseBackup.save_configs ◌>>=◌
    save_configs-Confirmed storage_id id w h g =
        let known : DatabaseBackup = record o { status = record o.status { database_id = id } } in
        let r = build_backup_config_request known id storage_id in
        let kept : Confirmed E c (save_backup_config E c r w).1.log =
          Adds-GuardedBy ((config-Harmless E c k r).at w) g in
        elim (Res-cases (save_backup_config E c r w).0) [
          | inl (a, fine) ↦
              let (body, (t, logged, answer)) = save_backup_config-IsPosted E c w r a fine in
              let posted : IsConfigured c id (save_backup_config E c r w).1.log =
                rw logged (configured a ((body, refl), answer) h) in
              rw fine (
                save_healthcheck-Confirmed known id refl (save_backup_config E c r w).1 posted kept)
          | inr (e, failed) ↦ rw failed (
              Adds-GuardedBy ((report_failure-Harmless E c k known "BackupConfigSyncFailed" e).at _)
                kept)
        ]

    send_database-IsRecorded :
        (r : DatabaseRequest) (a : DatabaseResponse) (w : World S)
        → (DatabaseBackup.send_database E c o r w).0 ≡ ok a
        → IsRecorded c a.id (DatabaseBackup.send_database E c o r w).1.log
    send_database-IsRecorded r a w = elim (Bool-cases (o.status.database_id == "")) [
      | inl new ↦
          unfold DatabaseBackup.send_database in
          rw new λ fine.
            let (body, (t, logged, answer)) = create_database-IsPosted E c w r a fine in
            rw logged (created a refl ((body, refl), answer))
      | inr known ↦
          unfold DatabaseBackup.send_database in
          rw known λ fine.
            let (body, (t, logged, answer)) =
              update_database-IsPosted E c w (record r { id = o.status.database_id }) a fine in
            rw logged (renewed a refl ((body, refl), answer))
    ]

    built-Confirmed :
        (storage_id : String) (r : DatabaseRequest) (w : World S)
        → Confirmed E c w.log
        → Confirmed E c
            ((DatabaseBackup.send_database E c o r >>= λ result.
                handle result
                  (λ e. DatabaseBackup.Status.report_failure E o "APISyncFailed" e)
                  (λ resp. DatabaseBackup.save_configs E c o storage_id resp.id))
              w).1.log
    unfolding ◌>>=◌
    built-Confirmed storage_id r w g =
        let kept : Confirmed E c (DatabaseBackup.send_database E c o r w).1.log =
          Adds-GuardedBy ((send_database-Harmless E c k o r).at w) g in
        elim (Res-cases (DatabaseBackup.send_database E c o r w).0) [
          | inl (a, fine) ↦
              rw fine (
                save_configs-Confirmed storage_id a.id _ (send_database-IsRecorded r a w fine) kept)
          | inr (e, failed) ↦
              rw failed
                (Adds-GuardedBy ((report_failure-Harmless E c k o "APISyncFailed" e).at _) kept)
        ]

    pub sync_database-Confirmed :
        (storage_id : String) (built : Option DatabaseRequest)
        → Keeps (Guard E c) (DatabaseBackup.sync_database E c o storage_id built)
    unfolding DatabaseBackup.sync_database
    sync_database-Confirmed storage_id built = record {
      at = λ w g.
          handle_some-elim (λ (m : M S Outcome). Confirmed E c (m w).1.log) built _ _
            (λ r. built-Confirmed storage_id r w g) ((Keeps-pure panicked).at w g);
    }
