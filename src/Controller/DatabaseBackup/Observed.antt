-- ===== src/Controller/DatabaseBackup/Observed.antt =====
-- internal/controller/databasebackup_controller.go: what a read of the database changes in the status.
use databasus_operator.Prelude.{
  ℕ, String, ◌≡◌, refl, Option, none, some, true, Bool-cases, inl, inr, Option-cases, arith,
}
use databasus_operator.Api.Meta.{condition_true}
use databasus_operator.Api.DatabaseBackup.{DatabaseBackup}
use databasus_operator.Wire.Json.{unmarshal_value}
use databasus_operator.Wire.Database.{DatabaseResponse, decode_database_response}
use databasus_operator.Effects.{
  Transport, no_response, broken_body, response, Body, Res, ok, err, World, Env, pure, fail, handle,
}
use databasus_operator.Client.Request.{reply_of, is_not_found, present, unmarshal}
use databasus_operator.Client.Request.Gone.{NotFound, is_not_found_iff}
use databasus_operator.Client.Saved.{not_ok, described}
use databasus_operator.Client.Database.{read_database}
use databasus_operator.Client.Request.{DatabasusClient}
use databasus_operator.Controller.Written.{ready_backup}
use databasus_operator.Controller.DatabaseBackup.Status.{set_ready_condition, refreshed}

-- The database that a read gives, if it gives one.
abbrev pub seen : Res (Option DatabaseResponse) → Option DatabaseResponse
seen (err e) = none
seen (ok got) = got

NotFound-not_ok : (status : ℕ) (body : Body) → NotFound status body → not_ok status ≡ true
NotFound-not_ok status body (inl h) = ground arith
NotFound-not_ok status body (inr (h, _)) = ground arith

module _ {S : Type 0} (E : Env S) where
  -- What is written in the end, for what was read.
  pub refreshed-ready :
      (o : DatabaseBackup) (id : String) (r : Res (Option DatabaseResponse)) (now : ℕ)
      → let known : DatabaseBackup = record o { status = record o.status { database_id = id } } in
        set_ready_condition E
          (record known {
            status = record (refreshed known.status r) {
              observed_generation = o.metadata.generation;
            };
          })
          now
          condition_true
          "Synced"
          "DatabaseBackup synced to databasus"
        ≡ ready_backup E o id (seen r) now
  unfolding set_ready_condition refreshed
  refreshed-ready o id (err e) now = refl
  refreshed-ready o id (ok none) now = refl
  refreshed-ready o id (ok (some d)) now = refl

  module _ (c : DatabasusClient) where
    unmarshal-seen :
        (body : Body)
        → seen (
            present
              (unmarshal E "failed to unmarshal database response" decode_database_response body))
          ≡ unmarshal_value decode_database_response body.json
    unmarshal-seen body = elim (Option-cases (unmarshal_value decode_database_response body.json)) [
      | inl e ↦ rw (unmarshal, e) refl
      | inr (d, e) ↦ rw (unmarshal, e) refl
    ]

    response-seen :
        (status : ℕ) (body : Body)
        → seen (read_database E c (record { status = status; body = body }))
          ≡ described not_ok (response status body)
    response-seen status body = elim (Bool-cases (is_not_found status body)) [
      | inl gone ↦
          rw (gone, NotFound-not_ok status body ((is_not_found_iff status body).0 gone)) refl
      | inr there ↦ elim (Bool-cases (not_ok status)) [
        | inl bad ↦ rw (there, bad) refl
        | inr fine ↦ rw (there, fine) (unmarshal-seen body)
      ]
    ]

    -- A read gives a database exactly where the answer, 200, describes one.
    pub read-seen :
        (t : Transport) (v : World S)
        → seen (handle (reply_of t) fail (λ reply. pure (read_database E c reply)) v).0
          ≡ described not_ok t
    unfolding handle fail pure
    read-seen (no_response e) v = refl
    read-seen (broken_body status e) v = refl
    read-seen (response status body) v = response-seen status body
