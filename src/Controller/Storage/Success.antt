-- ===== src/Controller/Storage/Success.antt =====
-- A synchronisation of a Storage that the API accepts.
use databasus_operator.Prelude.{◌<>◌, ◌==◌, ◌≡◌, refl, none, some, Option, ◌∷◌, if◌then◌else◌}
use databasus_operator.Controller.Written.{after_write, ready_storage}
use databasus_operator.Api.Storage.{Storage}
use databasus_operator.Wire.Storage.{
  StorageRequest, StorageResponse, encode_storage_request, decode_storage_response,
}
use databasus_operator.Effects.{
  Transport, ok, http, status_updated, storage_object, KubeError, World, Env, handle,
}
use databasus_operator.Effects.Plain.{◌>>=◌}
use databasus_operator.Effects.Logs.{unchanged}
use databasus_operator.Client.Request.{DatabasusClient, request_of}
use databasus_operator.Client.Request.Gone.{sent}
use databasus_operator.Client.Request.Accepted.{Accepted, Accepted-do_request}
use databasus_operator.Client.Saved.{not_ok, refusal}
use databasus_operator.Client.Storage.{save_storage}
use databasus_operator.Controller.Silent.{build_storage_request-Silent}
use databasus_operator.Controller.Storage.{set_ready_condition, report_success, save, sync}
use databasus_operator.Controller.Storage.Build.{build_storage_request}

-- The body that is sent for a request: with the identifier in the status, and with the workspace of
-- the client where the request names none.
abbrev pub sent_request : DatabasusClient → Storage → StorageRequest → StorageRequest
sent_request c o request =
    let known : StorageRequest = record request { id = o.status.id } in
    if known.workspace_id == "" then record known { workspace_id = c.workspace_id } else known

module _ {S : Type 0} (E : Env S) (c : DatabasusClient) (o : Storage) (w : World S) where
  -- The answer of the API, when the request was built.
  abbrev pub answer : StorageRequest → Transport × S
  answer request =
      sent E c "POST" "/api/v1/storages" (some (encode_storage_request (sent_request c o request)))
        (build_storage_request E c o w).1

  -- The write of the status, after the answer.
  abbrev pub synced : StorageRequest → StorageResponse → Storage
  synced request a = ready_storage E o a.id (E.now (answer request).1).0

  abbrev pub written : StorageRequest → StorageResponse → Option KubeError
  written request a =
      (E.write_status (storage_object (synced request a)) (E.now (answer request).1).1).0

  save_storage-Accepted :
      (request : StorageRequest) (a : StorageResponse) (v : World S)
      → E.url_error (c.base_url <> "/api/v1/storages") ≡ none
      → Accepted not_ok decode_storage_response a
          (sent E c "POST" "/api/v1/storages"
            (some (encode_storage_request (sent_request c o request)))
            v).0
      → save_storage E c (record request { id = o.status.id }) v ≡ (
        ok a,
        record {
          state =
              (sent E c "POST" "/api/v1/storages"
                (some (encode_storage_request (sent_request c o request)))
                v).1;
          log =
              http
                (request_of c "POST" "/api/v1/storages"
                  (some (encode_storage_request (sent_request c o request))))
                (sent E c "POST" "/api/v1/storages"
                  (some (encode_storage_request (sent_request c o request)))
                  v).0
              ∷ v.log;
        },
      )
  unfolding save_storage
  save_storage-Accepted request a v e h =
      Accepted-do_request E "failed to unmarshal storage response" decode_storage_response not_ok
        refusal c "POST" "/api/v1/storages" _ a v e h

  build-log : (build_storage_request E c o w).1.log ≡ w.log
  build-log = unchanged ((build_storage_request-Silent E c o).at w)

  -- Where the request of a Storage is built and its POST is accepted, a synchronisation calls this POST
  -- and then the write of the status, and nothing else. The status has the identifier of the answer,
  -- the generation of the object, and the condition Ready True, and the result is that of the write.
  pub storage_sync-Accepted :
      (request : StorageRequest) (a : StorageResponse)
      → (build_storage_request E c o w).0 ≡ ok request
      → E.url_error (c.base_url <> "/api/v1/storages") ≡ none
      → Accepted not_ok decode_storage_response a (answer request).0
      → ((sync E c o w).0 ≡ after_write 0 (written request a))
        × ((sync E c o w).1.log
            ≡ status_updated (storage_object (synced request a)) (written request a)
              ∷ http
                  (request_of c "POST" "/api/v1/storages"
                    (some (encode_storage_request (sent_request c o request))))
                  (answer request).0
              ∷ w.log)
  unfolding sync save report_success set_ready_condition handle ◌>>=◌
  storage_sync-Accepted request a built e h =
      let done = save_storage-Accepted request a (build_storage_request E c o w).1 e h in
      rw (built, done, build-log) (refl, refl)
