-- ===== src/Controller/Storage/Build.antt =====
-- internal/controller/storage_controller.go: the request that a Storage asks for.
use databasus_operator.Prelude.{String, ◌==◌, Option, none, some, if◌then◌else◌}
use databasus_operator.Api.Meta.{SecretKeyRef}
use databasus_operator.Api.Storage.{Storage, SftpStorageSpec, S3StorageSpec}
use databasus_operator.Wire.Storage.{StorageRequest, S3Request, SftpRequest}
use databasus_operator.Effects.{text_error, ok, Env, Run, pure, fail, fetch_secret}
use databasus_operator.Effects.Plain.{mapped}
use databasus_operator.Effects.Fallible.{◌>>=◌, wrap_error}
use databasus_operator.Client.Request.{DatabasusClient}
use databasus_operator.Controller.Secret.{key_of}

module _ {S : Type 0} (E : Env S) where
  unfoldable pub resolve_secret_ref : String → SecretKeyRef → Run S String
  unfolding key_of
  resolve_secret_ref namespace ref =
      mapped (key_of ref) (fetch_secret E (record { namespace = namespace; name = ref.name }))

  -- A reference that may be nil; a nil one leaves the field empty.
  unfoldable pub resolve_optional : String → String → Option SecretKeyRef → Run S String
  unfolding resolve_secret_ref
  resolve_optional prefix namespace none = pure (ok "")
  resolve_optional prefix namespace (some ref) =
      wrap_error prefix (resolve_secret_ref namespace ref)

module _ {S : Type 0} (E : Env S) (c : DatabasusClient) where
  abbrev pub base_request : Storage → StorageRequest
  base_request storage = record {
    id = "";
    workspace_id = c.workspace_id;
    type = storage.spec.type;
    name = storage.spec.name;
    s3_storage = none;
    sftp_storage = none;
  }

  -- The case S3.
  unfoldable pub s3_request : Storage → Option S3StorageSpec → Run S StorageRequest
  unfolding resolve_secret_ref
  s3_request storage none = fail (text_error "s3 spec is required for S3 storage type")
  s3_request storage (some s3) = do
    access_key ←
        wrap_error "failed to resolve s3 access key"
          (resolve_secret_ref E storage.metadata.namespace s3.access_key_secret_ref)
    secret_key ←
        wrap_error "failed to resolve s3 secret key"
          (resolve_secret_ref E storage.metadata.namespace s3.secret_key_secret_ref)
    let details : S3Request = record {
      s3_bucket = s3.bucket;
      s3_region = s3.region;
      s3_access_key = access_key;
      s3_secret_key = secret_key;
      s3_endpoint = s3.endpoint;
      s3_prefix = s3.prefix;
      s3_use_virtual_hosted_style = s3.is_use_virtual_hosted_style;
      skip_tls_verify = s3.is_skip_tls_verify;
      s3_storage_class = s3.storage_class;
    }
    pure (ok (record (base_request storage) { s3_storage = some details }))

  -- The case SFTP.
  unfoldable pub sftp_request : Storage → Option SftpStorageSpec → Run S StorageRequest
  unfolding resolve_optional
  sftp_request storage none = fail (text_error "sftp spec is required for SFTP storage type")
  sftp_request storage (some sftp) = do
    password ←
        resolve_optional E "failed to resolve sftp password" storage.metadata.namespace
          sftp.password_secret_ref
    private_key ←
        resolve_optional E "failed to resolve sftp private key" storage.metadata.namespace
          sftp.private_key_secret_ref
    let details : SftpRequest = record {
      host = sftp.host;
      port = sftp.port;
      username = sftp.username;
      password = password;
      private_key = private_key;
      path = sftp.path;
      is_skip_host_key_verify = sftp.is_skip_host_key_verify;
    }
    pure (ok (record (base_request storage) { sftp_storage = some details }))

  unfoldable pub build_storage_request : Storage → Run S StorageRequest
  unfolding s3_request sftp_request
  build_storage_request storage =
      if storage.spec.type == "S3"
      then s3_request storage storage.spec.s3
      else if storage.spec.type == "SFTP"
      then sftp_request storage storage.spec.sftp
      else pure (ok (base_request storage))
