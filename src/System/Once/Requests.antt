-- ===== src/System/Once/Requests.antt =====
-- The requests of a synchronisation of a DatabaseBackup: which of them create a database.
use databasus_operator.Prelude.{
  refl, ℕ, String, ◌<>◌, ◌==◌, ◌≡◌, Bool, false, Option, none, some, inl, inr, Bool-cases,
  Option-cases, eq_iff, eq_refl,
}
use text.Mathlib.TextLemmas.{append_cancel_left}
use databasus_operator.Wire.Json.{Json}
use databasus_operator.Wire.Database.{DatabaseRequest, DatabaseResponse, decode_database_response}
use databasus_operator.Wire.BackupConfig.{BackupConfigRequest}
use databasus_operator.Wire.Healthcheck.{HealthcheckConfigRequest}
use databasus_operator.Api.DatabaseBackup.{DatabaseBackup}
use databasus_operator.Effects.{
  http, Transport, no_response, broken_body, response, Error, ok, err, World, Env, Run, pure,
}
use databasus_operator.Effects.Fallible.{◌>>=◌}
use databasus_operator.Effects.Logs.{Logs, log_rules}
use databasus_operator.Client.Request.{DatabasusClient, request_of, do_request}
use databasus_operator.Client.Request.Gone.{sent, do_request-sent, do_request-unsent}
use databasus_operator.Client.Request.Accepted.{
  Accepted, accepted, Accepted-do_request, read_reply, reply-world,
}
use databasus_operator.Client.Saved.{
  not_ok, not_created, refusal, described, create_database-IsPosted, update_database-IsPosted,
}
use databasus_operator.Client.Database.{create_database, update_database, get_database}
use databasus_operator.Client.BackupConfig.{save_backup_config}
use databasus_operator.Client.Healthcheck.{save_healthcheck_config}
use databasus_operator.Controller.DatabaseBackup.{send_database}
use databasus_operator.System.Once.{posted, is_named}
use databasus_operator.System.Once.Counts.{
  IsBounded, NoCreation, unnamed-IsBounded, Adds-IsBounded, created-IsBounded, renewed-IsBounded,
}

append-eq_false : (s a b : String) → (a == b) ≡ false → ((s <> a) == (s <> b)) ≡ false
append-eq_false s a b h = elim (Bool-cases ((s <> a) == (s <> b))) [
  | inl same ↦
      let e : a ≡ b = append_cancel_left s a b ((eq_iff (s <> a) (s <> b)).0 same) in
      cc ((eq_iff a b).1 e, h)
  | inr differ ↦ differ
]

described-Accepted :
    (refuses : ℕ → Bool) (t : Transport) (a : DatabaseResponse)
    → Accepted refuses decode_database_response a t
    → described refuses t ≡ some a
described-Accepted refuses _ a (accepted status body fine decoded) = rw fine decoded

Accepted-described :
    (refuses : ℕ → Bool) (t : Transport) (a : DatabaseResponse)
    → described refuses t ≡ some a
    → Accepted refuses decode_database_response a t
Accepted-described refuses (no_response e) a h = cc
Accepted-described refuses (broken_body status e) a h = cc
Accepted-described refuses (response status body) a h = elim (Bool-cases (refuses status)) [
  | inl refused ↦ cc (rw refused at h)
  | inr fine ↦ accepted status body fine (rw fine at h)
]

module _ (c : DatabasusClient) where
  posted-same :
      (path : String) (body : Option Json) (t : Transport)
      → posted c path (http (request_of c "POST" path body) t) ≡ some t
  posted-same path body t = rw (eq_refl (c.base_url <> path)) refl

  other-NoCreation :
      (path : String) (body : Option Json) (t : Transport)
      → (path == "/api/v1/databases/create") ≡ false
      → NoCreation c (http (request_of c "POST" path body) t)
  other-NoCreation path body t h =
      rw (append-eq_false c.base_url path "/api/v1/databases/create" h) refl

  get-NoCreation :
      (path : String) (body : Option Json) (t : Transport)
      → NoCreation c (http (request_of c "GET" path body) t)
  get-NoCreation path body t = refl

module _ {S : Type 0} (E : Env S) (c : DatabasusClient) where
  post-NoCreation :
      (path : String) (body : Option Json)
      → (path == "/api/v1/databases/create") ≡ false
      → Logs (NoCreation c) (do_request E c "POST" path body)
  unfolding do_request
  post-NoCreation path body h = search (log_rules, other-NoCreation c)

  pub get_database-NoCreation : (id : String) → Logs (NoCreation c) (get_database E c id)
  unfolding get_database do_request
  get_database-NoCreation id = search (log_rules, get-NoCreation c)

  pub save_healthcheck_config-NoCreation :
      (r : HealthcheckConfigRequest) → Logs (NoCreation c) (save_healthcheck_config E c r)
  unfolding save_healthcheck_config
  save_healthcheck_config-NoCreation r =
      search (log_rules, post-NoCreation "/api/v1/healthcheck-config" _ refl)

  pub save_backup_config-NoCreation :
      (r : BackupConfigRequest) → Logs (NoCreation c) (save_backup_config E c r)
  unfolding save_backup_config
  save_backup_config-NoCreation r =
      search (log_rules, post-NoCreation "/api/v1/backup-configs/save" _ refl)

  update_database-NoCreation : (r : DatabaseRequest) → Logs (NoCreation c) (update_database E c r)
  unfolding update_database
  update_database-NoCreation r =
      search (log_rules, post-NoCreation "/api/v1/databases/update" _ refl)

  abbrev creating : Json → Run S DatabaseResponse
  creating body = do_request E c "POST" "/api/v1/databases/create" (some body) >>= λ reply. pure (
      read_reply E "failed to unmarshal database response" decode_database_response not_created
        refusal reply)

  -- Where a creation gives an error, no identifier is learned from its answer.
  refused-unnamed :
      (body : Json) (e : Error) (w : World S)
      → E.url_error (c.base_url <> "/api/v1/databases/create") ≡ none
      → (creating body w).0 ≡ err e
      → is_named
          (described not_created (sent E c "POST" "/api/v1/databases/create" (some body) w).0)
        ≡ false
  refused-unnamed body e w fine h =
      let t = (sent E c "POST" "/api/v1/databases/create" (some body) w).0 in
      elim (Option-cases (described not_created t)) [
        | inl nothing_made ↦ rw nothing_made refl
        | inr (a, made) ↦
            let given =
              Accepted-do_request E "failed to unmarshal database response" decode_database_response
                not_created refusal c "POST" "/api/v1/databases/create" (some body) a w fine
                (Accepted-described not_created t a made) in
            cc (rw given at h)
      ]

  creating-refused :
      (body : Json) (e : Error) (w : World S) (id : String)
      → (creating body w).0 ≡ err e
      → IsBounded c id w.log
      → IsBounded c id (creating body w).1.log
  unfolding ◌>>=◌
  creating-refused body e w id h b =
      elim (Option-cases (E.url_error (c.base_url <> "/api/v1/databases/create"))) [
        | inl fine ↦
            let t = (sent E c "POST" "/api/v1/databases/create" (some body) w).0 in
            rw (do_request-sent E c "POST" "/api/v1/databases/create" (some body) w fine) (
              rw
                (reply-world
                  (read_reply E "failed to unmarshal database response" decode_database_response
                    not_created refusal)
                  t _)
                (unnamed-IsBounded c id t
                  (http (request_of c "POST" "/api/v1/databases/create" (some body)) t) w.log
                  (posted-same c "/api/v1/databases/create" (some body) t)
                  (refused-unnamed body e w fine h) b))
        | inr (m, bad) ↦
            rw (do_request-unsent E c "POST" "/api/v1/databases/create" (some body) w bad) b
      ]

  create_database-refused :
      (r : DatabaseRequest) (e : Error) (w : World S) (id : String)
      → (create_database E c r w).0 ≡ err e
      → IsBounded c id w.log
      → IsBounded c id (create_database E c r w).1.log
  unfolding create_database
  create_database-refused r e w id h b = creating-refused _ e w id h b

  create_database-IsBounded :
      (r : DatabaseRequest) (a : DatabaseResponse) (w : World S)
      → (create_database E c r w).0 ≡ ok a
      → IsBounded c "" w.log
      → IsBounded c a.id (create_database E c r w).1.log
  create_database-IsBounded r a w h b =
      let (body, (t, logged, answer)) = create_database-IsPosted E c w r a h in
      rw logged (
        created-IsBounded c a t
          (http (request_of c "POST" "/api/v1/databases/create" (some body)) t) w.log
          (posted-same c "/api/v1/databases/create" (some body) t)
          (described-Accepted not_created t a answer) b)

  update_database-IsBounded :
      (r : DatabaseRequest) (a : DatabaseResponse) (w : World S) (id : String)
      → (update_database E c r w).0 ≡ ok a
      → IsBounded c id w.log
      → IsBounded c a.id (update_database E c r w).1.log
  update_database-IsBounded r a w id h b =
      let (body, (t, logged, answer)) = update_database-IsPosted E c w r a h in
      rw logged (
        renewed-IsBounded c id a t
          (http (request_of c "POST" "/api/v1/databases/update" (some body)) t) w.log
          (other-NoCreation c "/api/v1/databases/update" (some body) t refl)
          (posted-same c "/api/v1/databases/update" (some body) t)
          (described-Accepted not_ok t a answer) b)

  pub send_database-ok :
      (o : DatabaseBackup) (r : DatabaseRequest) (a : DatabaseResponse) (w : World S)
      → IsBounded c o.status.database_id w.log
      → (send_database E c o r w).0 ≡ ok a
      → IsBounded c a.id (send_database E c o r w).1.log
  send_database-ok o r a w b = elim (Bool-cases (o.status.database_id == "")) [
    | inl new ↦
        unfold send_database in rw new λ fine. create_database-IsBounded r a w fine (rw new at b)
    | inr known ↦
        unfold send_database in
        rw known λ fine. update_database-IsBounded _ a w o.status.database_id fine b
  ]

  pub send_database-err :
      (o : DatabaseBackup) (r : DatabaseRequest) (e : Error) (w : World S) (id : String)
      → IsBounded c id w.log
      → (send_database E c o r w).0 ≡ err e
      → IsBounded c id (send_database E c o r w).1.log
  send_database-err o r e w id b = elim (Bool-cases (o.status.database_id == "")) [
    | inl new ↦ unfold send_database in rw new λ failed. create_database-refused r e w id failed b
    | inr known ↦
        unfold send_database in
        rw known λ failed. Adds-IsBounded c id ((update_database-NoCreation _).at w) b
  ]
