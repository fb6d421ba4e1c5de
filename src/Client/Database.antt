-- ===== src/Client/Database.antt =====
-- internal/client/database.go: the requests about databases.
use databasus_operator.Prelude.{
  String, ◌<>◌, ◌==◌, ◌&&◌, not, Option, none, some, nat_eq, if◌then◌else◌,
}
use databasus_operator.Wire.Database.{
  DatabaseRequest, DatabaseResponse, encode_database_request, decode_database_response,
}
use databasus_operator.Effects.{Env, Error, Res, ok, err, M, Run, pure}
use databasus_operator.Effects.Plain.{mapped}
use databasus_operator.Effects.Fallible.{◌>>=◌}
use databasus_operator.Client.Request.{
  DatabasusClient, Reply, do_request, parse_error, is_not_found, unmarshal, present, deleted,
}

module _ {S : Type 0} (E : Env S) (c : DatabasusClient) where
  unfoldable pub create_database : DatabaseRequest → Run S DatabaseResponse
  unfolding do_request
  create_database req = do
    let sent =
        (if req.workspace_id == "" then record req { workspace_id = c.workspace_id } else req)
    reply ← do_request E c "POST" "/api/v1/databases/create" (some (encode_database_request sent))
    pure (
        if not (nat_eq reply.status 201) && not (nat_eq reply.status 200)
        then err (parse_error reply.status reply.body)
        else unmarshal E "failed to unmarshal database response" decode_database_response
            reply.body)

  unfoldable pub update_database : DatabaseRequest → Run S DatabaseResponse
  unfolding do_request
  update_database req = do
    let sent =
        (if req.workspace_id == "" then record req { workspace_id = c.workspace_id } else req)
    reply ← do_request E c "POST" "/api/v1/databases/update" (some (encode_database_request sent))
    pure (
        if not (nat_eq reply.status 200)
        then err (parse_error reply.status reply.body)
        else unmarshal E "failed to unmarshal database response" decode_database_response
            reply.body)

  -- `none` stands for a nil response with a nil error.
  abbrev pub read_database : Reply → Res (Option DatabaseResponse)
  read_database reply =
      if is_not_found reply.status reply.body
      then ok none
      else if not (nat_eq reply.status 200)
      then err (parse_error reply.status reply.body)
      else present
          (unmarshal E "failed to unmarshal database response" decode_database_response reply.body)

  unfoldable pub get_database : String → Run S (Option DatabaseResponse)
  unfolding do_request
  get_database id = do
    reply ← do_request E c "GET" ("/api/v1/databases/" <> id) none
    pure (read_database reply)

  unfoldable pub delete_database : String → M S (Option Error)
  unfolding do_request
  delete_database id = mapped deleted (do_request E c "DELETE" ("/api/v1/databases/" <> id) none)
