-- ===== src/Client/Healthcheck.antt =====
-- internal/client/healthcheck.go: the requests about health check configs.
use databasus_operator.Prelude.{String, ◌<>◌, not, Option, none, some, nat_eq, if◌then◌else◌}
use databasus_operator.Wire.Healthcheck.{
  HealthcheckConfigRequest, HealthcheckConfigResponse, encode_healthcheck_config_request,
  decode_healthcheck_config_response,
}
use databasus_operator.Effects.{Env, ok, err, Run, pure}
use databasus_operator.Effects.Fallible.{◌>>=◌}
use databasus_operator.Client.Request.{
  DatabasusClient, do_request, parse_error, is_not_found, unmarshal, present,
}

module _ {S : Type 0} (E : Env S) (c : DatabasusClient) where
  unfoldable pub save_healthcheck_config :
      HealthcheckConfigRequest → Run S HealthcheckConfigResponse
  unfolding do_request
  save_healthcheck_config req = do
    reply ←
        do_request E c "POST" "/api/v1/healthcheck-config"
          (some (encode_healthcheck_config_request req))
    pure (
        if not (nat_eq reply.status 200)
        then err (parse_error reply.status reply.body)
        else unmarshal E "failed to unmarshal healthcheck config response"
            decode_healthcheck_config_response reply.body)

  -- `none` stands for a nil response with a nil error.
  unfoldable pub get_healthcheck_config : String → Run S (Option HealthcheckConfigResponse)
  unfolding do_request
  get_healthcheck_config id = do
    reply ← do_request E c "GET" ("/api/v1/healthcheck-config/" <> id) none
    pure (
        if is_not_found reply.status reply.body
        then ok none
        else if not (nat_eq reply.status 200)
        then err (parse_error reply.status reply.body)
        else present (
            unmarshal E "failed to unmarshal healthcheck config response"
              decode_healthcheck_config_response reply.body))
