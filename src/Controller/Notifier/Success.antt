-- ===== src/Controller/Notifier/Success.antt =====
-- A synchronisation of a Notifier that the API accepts.
use databasus_operator.Prelude.{◌<>◌, ◌==◌, ◌≡◌, refl, none, some, Option, ◌∷◌, if◌then◌else◌}
use databasus_operator.Controller.Written.{after_write, ready_notifier}
use databasus_operator.Api.Notifier.{Notifier}
use databasus_operator.Wire.Notifier.{
  NotifierRequest, NotifierResponse, encode_notifier_request, decode_notifier_response,
}
use databasus_operator.Effects.{
  Transport, ok, http, status_updated, notifier_object, KubeError, World, Env, handle,
}
use databasus_operator.Effects.Plain.{◌>>=◌}
use databasus_operator.Effects.Logs.{unchanged}
use databasus_operator.Client.Request.{DatabasusClient, request_of}
use databasus_operator.Client.Request.Gone.{sent}
use databasus_operator.Client.Request.Accepted.{Accepted, Accepted-do_request}
use databasus_operator.Client.Saved.{not_ok, refusal}
use databasus_operator.Client.Notifier.{save_notifier}
use databasus_operator.Controller.Silent.{build_notifier_request-Silent}
use databasus_operator.Controller.Notifier.{set_ready_condition, report_success, save, sync}
use databasus_operator.Controller.Notifier.Build.{build_notifier_request}

-- The body that is sent for a request: with the identifier in the status, and with the workspace of
-- the client where the request names none.
abbrev pub sent_request : DatabasusClient → Notifier → NotifierRequest → NotifierRequest
sent_request c o request =
    let known : NotifierRequest = record request { id = o.status.id } in
    if known.workspace_id == "" then record known { workspace_id = c.workspace_id } else known

module _ {S : Type 0} (E : Env S) (c : DatabasusClient) (o : Notifier) (w : World S) where
  -- The answer of the API, when the request was built.
  abbrev pub answer : NotifierRequest → Transport × S
  answer request =
      sent E c "POST" "/api/v1/notifiers"
        (some (encode_notifier_request (sent_request c o request)))
        (build_notifier_request E c o w).1

  -- The write of the status, after the answer.
  abbrev pub synced : NotifierRequest → NotifierResponse → Notifier
  synced request a = ready_notifier E o a.id (E.now (answer request).1).0

  abbrev pub written : NotifierRequest → NotifierResponse → Option KubeError
  written request a =
      (E.write_status (notifier_object (synced request a)) (E.now (answer request).1).1).0

  save_notifier-Accepted :
      (request : NotifierRequest) (a : NotifierResponse) (v : World S)
      → E.url_error (c.base_url <> "/api/v1/notifiers") ≡ none
      → Accepted not_ok decode_notifier_response a
          (sent E c "POST" "/api/v1/notifiers"
            (some (encode_notifier_request (sent_request c o request)))
            v).0
      → save_notifier E c (record request { id = o.status.id }) v ≡ (
        ok a,
        record {
          state =
              (sent E c "POST" "/api/v1/notifiers"
                (some (encode_notifier_request (sent_request c o request)))
                v).1;
          log =
              http
                (request_of c "POST" "/api/v1/notifiers"
                  (some (encode_notifier_request (sent_request c o request))))
                (sent E c "POST" "/api/v1/notifiers"
                  (some (encode_notifier_request (sent_request c o request)))
                  v).0
              ∷ v.log;
        },
      )
  unfolding save_notifier
  save_notifier-Accepted request a v e h =
      Accepted-do_request E "failed to unmarshal notifier response" decode_notifier_response not_ok
        refusal c "POST" "/api/v1/notifiers" _ a v e h

  build-log : (build_notifier_request E c o w).1.log ≡ w.log
  build-log = unchanged ((build_notifier_request-Silent E c o).at w)

  -- Where the request of a Notifier is built and its POST is accepted, a synchronisation calls this POST
  -- and then the write of the status, and nothing else. The status has the identifier of the answer,
  -- the generation of the object, and the condition Ready True, and the result is that of the write.
  pub notifier_sync-Accepted :
      (request : NotifierRequest) (a : NotifierResponse)
      → (build_notifier_request E c o w).0 ≡ ok request
      → E.url_error (c.base_url <> "/api/v1/notifiers") ≡ none
      → Accepted not_ok decode_notifier_response a (answer request).0
      → ((sync E c o w).0 ≡ after_write 0 (written request a))
        × ((sync E c o w).1.log
            ≡ status_updated (notifier_object (synced request a)) (written request a)
              ∷ http
                  (request_of c "POST" "/api/v1/notifiers"
                    (some (encode_notifier_request (sent_request c o request))))
                  (answer request).0
              ∷ w.log)
  unfolding sync save report_success set_ready_condition handle ◌>>=◌
  notifier_sync-Accepted request a built e h =
      let done = save_notifier-Accepted request a (build_notifier_request E c o w).1 e h in
      rw (built, done, build-log) (refl, refl)
