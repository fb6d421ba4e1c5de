-- ===== src/Client/Storage.antt =====
-- internal/client/storage.go: the requests about storages.
use databasus_operator.Prelude.{String, ◌<>◌, ◌==◌, not, Option, none, some, nat_eq, if◌then◌else◌}
use databasus_operator.Wire.Storage.{
  StorageRequest, StorageResponse, encode_storage_request, decode_storage_response,
}
use databasus_operator.Effects.{Env, Error, ok, err, M, Run, pure}
use databasus_operator.Effects.Plain.{mapped}
use databasus_operator.Effects.Fallible.{◌>>=◌}
use databasus_operator.Client.Request.{
  DatabasusClient, do_request, parse_error, is_not_found, unmarshal, present, deleted,
}

module _ {S : Type 0} (E : Env S) (c : DatabasusClient) where
  unfoldable pub save_storage : StorageRequest → Run S StorageResponse
  unfolding do_request
  save_storage req = do
    let sent =
        (if req.workspace_id == "" then record req { workspace_id = c.workspace_id } else req)
    reply ← do_request E c "POST" "/api/v1/storages" (some (encode_storage_request sent))
    pure (
        if not (nat_eq reply.status 200)
        then err (parse_error reply.status reply.body)
        else unmarshal E "failed to unmarshal storage response" decode_storage_response reply.body)

  -- `none` stands for a nil response with a nil error.
  unfoldable pub get_storage : String → Run S (Option StorageResponse)
  unfolding do_request
  get_storage id = do
    reply ← do_request E c "GET" ("/api/v1/storages/" <> id) none
    pure (
        if is_not_found reply.status reply.body
        then ok none
        else if not (nat_eq reply.status 200)
        then err (parse_error reply.status reply.body)
        else present
            (unmarshal E "failed to unmarshal storage response" decode_storage_response reply.body))

  unfoldable pub delete_storage : String → M S (Option Error)
  unfolding do_request
  delete_storage id = mapped deleted (do_request E c "DELETE" ("/api/v1/storages/" <> id) none)
