-- ===== src/Client/BackupConfig.antt =====
-- internal/client/backup_config.go: the requests about backup configs.
use databasus_operator.Prelude.{String, ◌<>◌, not, Option, none, some, nat_eq, if◌then◌else◌}
use databasus_operator.Wire.BackupConfig.{
  BackupConfigRequest, BackupConfigResponse, encode_backup_config_request,
  decode_backup_config_response,
}
use databasus_operator.Effects.{Env, ok, err, Run, pure}
use databasus_operator.Effects.Fallible.{◌>>=◌}
use databasus_operator.Client.Request.{
  DatabasusClient, do_request, parse_error, is_not_found, unmarshal, present,
}

module _ {S : Type 0} (E : Env S) (c : DatabasusClient) where
  unfoldable pub save_backup_config : BackupConfigRequest → Run S BackupConfigResponse
  unfolding do_request
  save_backup_config req = do
    reply ←
        do_request E c "POST" "/api/v1/backup-configs/save"
          (some (encode_backup_config_request req))
    pure (
        if not (nat_eq reply.status 200)
        then err (parse_error reply.status reply.body)
        else unmarshal E "failed to unmarshal backup config response" decode_backup_config_response
            reply.body)

  -- `none` stands for a nil response with a nil error.
  unfoldable pub get_backup_config : String → Run S (Option BackupConfigResponse)
  unfolding do_request
  get_backup_config id = do
    reply ← do_request E c "GET" ("/api/v1/backup-configs/database/" <> id) none
    pure (
        if is_not_found reply.status reply.body
        then ok none
        else if not (nat_eq reply.status 200)
        then err (parse_error reply.status reply.body)
        else present (
            unmarshal E "failed to unmarshal backup config response" decode_backup_config_response
              reply.body))
