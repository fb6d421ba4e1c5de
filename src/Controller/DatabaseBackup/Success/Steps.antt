-- ===== src/Controller/DatabaseBackup/Success/Steps.antt =====
-- internal/controller/databasebackup_controller.go: each step of a synchronisation succeeds where
-- the API accepts its request.
use databasus_operator.Prelude.{
  String, ◌<>◌, ◌==◌, ◌≡◌, refl, true, false, Option, none, some, List, inl, inr, Bool-cases,
}
use databasus_operator.Api.DatabaseBackup.{DatabaseBackup, HealthcheckSpec}
use databasus_operator.Wire.Database.{DatabaseRequest, decode_database_response}
use databasus_operator.Wire.BackupConfig.{
  encode_backup_config_request, decode_backup_config_response,
}
use databasus_operator.Effects.{Event, Env, handle, handle_some}
use databasus_operator.Effects.Plain
use databasus_operator.Effects.Leads.{Leads, Leads-pure, Leads-reading, Leads-calling}
use databasus_operator.Client.Request.{DatabasusClient}
use databasus_operator.Client.Saved.{not_ok, not_created}
use databasus_operator.Client.Database.{create_database, update_database}
use databasus_operator.Client.BackupConfig.{save_backup_config}
use databasus_operator.Client.Healthcheck.{save_healthcheck_config}
use databasus_operator.Controller.DatabaseBackup.{
  refresh_status, save_healthcheck, save_configs, send_database, sync_database,
}
use databasus_operator.Controller.DatabaseBackup.Status.{report_success, report_failure}
use databasus_operator.Controller.DatabaseBackup.Observed.{refreshed-ready}
use databasus_operator.Controller.DatabaseBackup.Wanted.{wanted_config}
use databasus_operator.Controller.DatabaseBackup.Build.{
  build_backup_config_request, build_healthcheck_request,
}
use databasus_operator.Controller.DatabaseBackup.Success.Requests.{Leads-posted, Leads-got}
use databasus_operator.Controller.DatabaseBackup.Success.{
  known, Refreshed, refreshes, Monitored, no_healthcheck, monitors, Configured, configures,
  creation, change, Synced, creates, updates, Accepts, AcceptsHealthcheck,
}

module _ {S : Type 0} (E : Env S) (c : DatabasusClient)
    (urls : (path : String) → E.url_error (c.base_url <> path) ≡ none) where
  refresh_status-Refreshed :
      (b : DatabaseBackup) (id : String) (old : List Event)
      → Leads (Refreshed E c b id old) old (refresh_status E c b id)
  unfolding refresh_status report_success
  refresh_status-Refreshed b id old =
      Leads-got E c urls (Refreshed E c b id old) old _ id λ got t same.
        Leads-reading (Refreshed E c b id old) _ E.now _ λ x.
          Leads-calling (Refreshed E c b id old) _ _ _ _ λ y.
            Leads-pure (Refreshed E c b id old) _ _ (
              rw (refreshed-ready E b b.status.database_id got (E.now x).0, same) (refreshes t _ _))

  module _ (b : DatabaseBackup) (id : String) where
    some_healthcheck-Monitored :
        (o : Option HealthcheckSpec) (old : List Event)
        → b.spec.healthcheck ≡ o
        → AcceptsHealthcheck E c id o
        → Leads (Monitored E c b id old) old (
            handle_some o
              (λ hc.
                Plain.◌>>=◌
                  (save_healthcheck_config E c (build_healthcheck_request hc id))
                  λ result.
                    handle result
                      (λ e. report_failure E b "HealthcheckSyncFailed" e)
                      (λ resp. refresh_status E c b id))
              (refresh_status E c b id))
    unfolding handle_some handle save_healthcheck_config build_healthcheck_request
    some_healthcheck-Monitored none old h accepts = record {
      at = λ x. no_healthcheck h ((refresh_status-Refreshed b id old).at x);
    }
    some_healthcheck-Monitored (some hc) old h accepts =
        Leads-posted E c urls (Monitored E c b id old) old _ _ _ _ not_ok _ accepts
          λ a t _. record { at = λ x. monitors hc t h ((refresh_status-Refreshed b id _).at x) }

    save_healthcheck-Monitored :
        (old : List Event)
        → AcceptsHealthcheck E c id b.spec.healthcheck
        → Leads (Monitored E c b id old) old (save_healthcheck E c b id)
    unfolding save_healthcheck
    save_healthcheck-Monitored old accepts = some_healthcheck-Monitored _ old refl accepts

module _ {S : Type 0} (E : Env S) (c : DatabasusClient) where
  -- No path of the client makes a URL that cannot be parsed, and the API accepts the requests of a
  -- synchronisation, for whatever identifier it has given to the database.
  pub record IsAccepting (b : DatabaseBackup) (storage_id : String) (request : DatabaseRequest)
      : Type 0 where
    pub urls : (path : String) → E.url_error (c.base_url <> path) ≡ none
    pub created :
        (b.status.database_id == "") ≡ true
        → Accepts E c "/api/v1/databases/create" not_created decode_database_response
            (creation E c request)
    pub updated :
        (b.status.database_id == "") ≡ false
        → Accepts E c "/api/v1/databases/update" not_ok decode_database_response
            (change E c b request)
    pub configured :
        (id : String)
        → Accepts E c "/api/v1/backup-configs/save" not_ok decode_backup_config_response
            (encode_backup_config_request (wanted_config b.spec id storage_id))
    pub monitored : (id : String) → AcceptsHealthcheck E c id b.spec.healthcheck

  module _ (b : DatabaseBackup) (storage_id : String) (request : DatabaseRequest)
      (api : IsAccepting b storage_id request) where
    save_configs-Configured :
        (id : String) (old : List Event)
        → Leads (Configured E c b storage_id id old) old (save_configs E c b storage_id id)
    unfolding save_configs save_backup_config handle build_backup_config_request
    save_configs-Configured id old =
        Leads-posted E c api.urls (Configured E c b storage_id id old) old _ _ _ _ not_ok _
          (api.configured id)
          λ a t _. record {
            at = λ x. configures t (
                (save_healthcheck-Monitored E c api.urls (known b id) id _ (api.monitored id)).at
                  x);
          }

    pub sync_database-Synced :
        (old : List Event)
        → Leads
            (Synced E c b storage_id request old)
            old
            (sync_database E c b storage_id (some request))
    unfolding sync_database handle_some send_database create_database update_database handle
    sync_database-Synced old = elim (Bool-cases (b.status.database_id == "")) [
      | inl new ↦ rw new (
          Leads-posted E c api.urls (Synced E c b storage_id request old) old _ _ _ _ not_created _
            (api.created new)
            λ d t h. record { at = λ x. creates d t new h ((save_configs-Configured d.id _).at x) })
      | inr old_one ↦ rw old_one (
          Leads-posted E c api.urls (Synced E c b storage_id request old) old _ _ _ _ not_ok _
            (api.updated old_one)
            λ d t h. record {
              at = λ x. updates d t old_one h ((save_configs-Configured d.id _).at x);
            })
    ]
