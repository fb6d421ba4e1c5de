-- ===== src/Controller/Storage/Contents.antt =====
-- internal/controller/storage_controller.go: what the request for a Storage says.
use databasus_operator.Prelude.{String, ◌==◌, ◌≡◌, refl, false, none, some, Option, eq_iff}
use databasus_operator.Api.Meta.{SecretKeyRef}
use databasus_operator.Api.Storage.{Storage, S3StorageSpec, SftpStorageSpec}
use databasus_operator.Wire.Storage.{StorageRequest, S3Request, SftpRequest}
use databasus_operator.Effects.{Env, World, ok}
use databasus_operator.Effects.Yields.{
  Yields, Yields-pure, Yields-fail, Yields-if, Yields-wrap_error, Yields-bind,
}
use databasus_operator.Client.Request.{DatabasusClient}
use databasus_operator.Controller.Secret.Holds.{Holds, HoldsOr, secret-Yields}
use databasus_operator.Controller.Storage.Build.{
  resolve_secret_ref, resolve_optional, s3_request, sftp_request, build_storage_request,
}

-- The sections, as the specification and the Secrets give them.
abbrev pub s3_section : S3StorageSpec → String → String → S3Request
s3_section s3 access_key secret_key = record {
  s3_bucket = s3.bucket;
  s3_region = s3.region;
  s3_access_key = access_key;
  s3_secret_key = secret_key;
  s3_endpoint = s3.endpoint;
  s3_prefix = s3.prefix;
  s3_use_virtual_hosted_style = s3.is_use_virtual_hosted_style;
  skip_tls_verify = s3.is_skip_tls_verify;
  s3_storage_class = s3.storage_class;
}

abbrev pub sftp_section : SftpStorageSpec → String → String → SftpRequest
sftp_section sftp password private_key = record {
  host = sftp.host;
  port = sftp.port;
  username = sftp.username;
  password = password;
  private_key = private_key;
  path = sftp.path;
  is_skip_host_key_verify = sftp.is_skip_host_key_verify;
}

module _ {S : Type 0} (E : Env S) (namespace : String) where
  -- The section of the type that is given, with the secrets that its references name, and no
  -- other.
  pub data HasSection (storage : Storage) : Option S3Request → Option SftpRequest → Type 0 where
    is_s3 :
        {s3 : S3StorageSpec} {access_key secret_key : String}
        → storage.spec.type ≡ "S3"
        → storage.spec.s3 ≡ some s3
        → Holds E namespace s3.access_key_secret_ref access_key
        → Holds E namespace s3.secret_key_secret_ref secret_key
        → HasSection storage (some (s3_section s3 access_key secret_key)) none
    is_sftp :
        {sftp : SftpStorageSpec} {password private_key : String}
        → storage.spec.type ≡ "SFTP"
        → storage.spec.sftp ≡ some sftp
        → HoldsOr E namespace "" sftp.password_secret_ref password
        → HoldsOr E namespace "" sftp.private_key_secret_ref private_key
        → HasSection storage none (some (sftp_section sftp password private_key))
    is_other :
        (storage.spec.type == "S3") ≡ false
        → (storage.spec.type == "SFTP") ≡ false
        → HasSection storage none none

module _ {S : Type 0} (E : Env S) (c : DatabasusClient) (storage : Storage) where
  -- The request has the name and the type of the Storage, no identifier yet, the workspace of the
  -- client, and the section.
  pub record Says (r : StorageRequest) : Type 0 where
    pub no_id : r.id ≡ ""
    pub workspace : r.workspace_id ≡ c.workspace_id
    pub type : r.type ≡ storage.spec.type
    pub name : r.name ≡ storage.spec.name
    pub section : HasSection E storage.metadata.namespace storage r.s3_storage r.sftp_storage

  resolve_secret_ref-Yields :
      (prefix : String) (ref : SecretKeyRef)
      → Yields
          (Holds E storage.metadata.namespace ref)
          (resolve_secret_ref E storage.metadata.namespace ref)
  unfolding resolve_secret_ref
  resolve_secret_ref-Yields prefix ref = secret-Yields E storage.metadata.namespace ref

  resolve_optional-Yields :
      (prefix : String) (o : Option SecretKeyRef)
      → Yields
          (HoldsOr E storage.metadata.namespace "" o)
          (resolve_optional E prefix storage.metadata.namespace o)
  unfolding resolve_optional
  resolve_optional-Yields prefix none = Yields-pure "" refl
  resolve_optional-Yields prefix (some ref) =
      Yields-wrap_error prefix _ (resolve_secret_ref-Yields prefix ref)

  s3_request-Says :
      (o : Option S3StorageSpec)
      → storage.spec.s3 ≡ o
      → storage.spec.type ≡ "S3"
      → Yields Says (s3_request E c storage o)
  unfolding s3_request
  s3_request-Says none h t = Yields-fail _
  s3_request-Says (some s3) h t =
      Yields-bind (Holds E storage.metadata.namespace s3.access_key_secret_ref) _ _
        (Yields-wrap_error _ _ (resolve_secret_ref-Yields "" s3.access_key_secret_ref))
        λ access_key held.
          Yields-bind (Holds E storage.metadata.namespace s3.secret_key_secret_ref) _ _
            (Yields-wrap_error _ _ (resolve_secret_ref-Yields "" s3.secret_key_secret_ref))
            λ secret_key kept. Yields-pure _ (record {
              no_id = refl;
              workspace = refl;
              type = refl;
              name = refl;
              section = is_s3 t h held kept;
            })

  sftp_request-Says :
      (o : Option SftpStorageSpec)
      → storage.spec.sftp ≡ o
      → storage.spec.type ≡ "SFTP"
      → Yields Says (sftp_request E c storage o)
  unfolding sftp_request
  sftp_request-Says none h t = Yields-fail _
  sftp_request-Says (some sftp) h t =
      Yields-bind (HoldsOr E storage.metadata.namespace "" sftp.password_secret_ref) _ _
        (resolve_optional-Yields _ sftp.password_secret_ref)
        λ password held.
          Yields-bind (HoldsOr E storage.metadata.namespace "" sftp.private_key_secret_ref) _ _
            (resolve_optional-Yields _ sftp.private_key_secret_ref)
            λ private_key kept. Yields-pure _ (record {
              no_id = refl;
              workspace = refl;
              type = refl;
              name = refl;
              section = is_sftp t h held kept;
            })

  request-Says : Yields Says (build_storage_request E c storage)
  unfolding build_storage_request
  request-Says =
      Yields-if _ _ _ (λ s3. s3_request-Says _ refl ((eq_iff _ _).0 s3))
        λ not_s3.
          Yields-if _ _ _ (λ sftp. sftp_request-Says _ refl ((eq_iff _ _).0 sftp))
            λ not_sftp. Yields-pure _ (record {
              no_id = refl;
              workspace = refl;
              type = refl;
              name = refl;
              section = is_other not_s3 not_sftp;
            })

  -- Where a request for a Storage is built, it has the name and the type of the Storage, the
  -- workspace of the client, and no identifier. For the types S3 and SFTP it has the section of its
  -- type, which is that of the specification, with values that reads of the Secrets, in the
  -- namespace of the Storage, gave under the keys of the references, or the empty text for a missing
  -- reference of SFTP; and it has no other section. For another type it has no section.
  pub build_storage_request-Says :
      (r : StorageRequest) (w : World S) → (build_storage_request E c storage w).0 ≡ ok r → Says r
  build_storage_request-Says r w = request-Says.at w r
