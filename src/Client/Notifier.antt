-- ===== src/Client/Notifier.antt =====
-- internal/client/notifier.go: the requests about notifiers.
use databasus_operator.Prelude.{String, ◌<>◌, ◌==◌, not, Option, none, some, nat_eq, if◌then◌else◌}
use databasus_operator.Wire.Notifier.{
  NotifierRequest, NotifierResponse, encode_notifier_request, decode_notifier_response,
}
use databasus_operator.Effects.{Env, Error, ok, err, M, Run, pure}
use databasus_operator.Effects.Plain.{mapped}
use databasus_operator.Effects.Fallible.{◌>>=◌}
use databasus_operator.Client.Request.{
  DatabasusClient, do_request, parse_error, is_not_found, unmarshal, present, deleted,
}

module _ {S : Type 0} (E : Env S) (c : DatabasusClient) where
  unfoldable pub save_notifier : NotifierRequest → Run S NotifierResponse
  unfolding do_request
  save_notifier req = do
    let sent =
        (if req.workspace_id == "" then record req { workspace_id = c.workspace_id } else req)
    reply ← do_request E c "POST" "/api/v1/notifiers" (some (encode_notifier_request sent))
    pure (
        if not (nat_eq reply.status 200)
        then err (parse_error reply.status reply.body)
        else unmarshal E "failed to unmarshal notifier response" decode_notifier_response
            reply.body)

  -- `none` stands for a nil response with a nil error.
  unfoldable pub get_notifier : String → Run S (Option NotifierResponse)
  unfolding do_request
  get_notifier id = do
    reply ← do_request E c "GET" ("/api/v1/notifiers/" <> id) none
    pure (
        if is_not_found reply.status reply.body
        then ok none
        else if not (nat_eq reply.status 200)
        then err (parse_error reply.status reply.body)
        else present (
            unmarshal E "failed to unmarshal notifier response" decode_notifier_response
              reply.body))

  unfoldable pub delete_notifier : String → M S (Option Error)
  unfolding do_request
  delete_notifier id = mapped deleted (do_request E c "DELETE" ("/api/v1/notifiers/" <> id) none)
