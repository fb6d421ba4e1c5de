-- ===== src/Wire/Storage.antt =====
-- The requests and responses of internal/client/storage.go, and their JSON.
use databasus_operator.Prelude.{String, Bool, Option, some, ℤ}
use databasus_operator.Wire.Json.{
  Json, Fields, obj, end, omit_str, field_str, field_num, field_bool, omit_none, read_str,
  read_opt_str, struct_of, ◌>>=◌,
}

pub record S3Request : Type 0 where
  pub s3_bucket : String
  pub s3_region : String
  pub s3_access_key : String
  pub s3_secret_key : String
  pub s3_endpoint : String
  pub s3_prefix : String
  pub s3_use_virtual_hosted_style : Bool
  pub skip_tls_verify : Bool
  pub s3_storage_class : String

pub record SftpRequest : Type 0 where
  pub host : String
  pub port : ℤ
  pub username : String
  pub password : String
  pub private_key : String
  pub path : String
  pub is_skip_host_key_verify : Bool

pub record StorageRequest : Type 0 where
  pub id : String
  pub workspace_id : String
  pub type : String
  pub name : String
  pub s3_storage : Option S3Request
  pub sftp_storage : Option SftpRequest

pub record StorageResponse : Type 0 where
  pub id : String
  pub workspace_id : String
  pub type : String
  pub name : String
  pub last_save_error : Option String

unfoldable pub encode_s3_request : S3Request → Json
encode_s3_request r = obj (
    field_str "s3Bucket" r.s3_bucket (
      field_str "s3Region" r.s3_region (
        field_str "s3AccessKey" r.s3_access_key (
          field_str "s3SecretKey" r.s3_secret_key (
            omit_str "s3Endpoint" r.s3_endpoint (
              omit_str "s3Prefix" r.s3_prefix (
                field_bool "s3UseVirtualHostedStyle" r.s3_use_virtual_hosted_style (
                  field_bool "skipTLSVerify" r.skip_tls_verify
                    (omit_str "s3StorageClass" r.s3_storage_class end)))))))))

unfoldable pub encode_sftp_request : SftpRequest → Json
encode_sftp_request r = obj (
    field_str "host" r.host (
      field_num "port" r.port (
        field_str "username" r.username (
          omit_str "password" r.password (
            omit_str "privateKey" r.private_key (
              omit_str "path" r.path
                (field_bool "isSkipHostKeyVerify" r.is_skip_host_key_verify end)))))))

unfoldable pub encode_storage_request : StorageRequest → Json
unfolding encode_s3_request encode_sftp_request
encode_storage_request r = obj (
    omit_str "id" r.id (
      field_str "workspaceId" r.workspace_id (
        field_str "type" r.type (
          field_str "name" r.name (
            omit_none "s3Storage" encode_s3_request r.s3_storage
              (omit_none "sftpStorage" encode_sftp_request r.sftp_storage end))))))

decode_storage_response_fields : Fields → Option StorageResponse
decode_storage_response_fields fs = do
  id ← read_str "id" fs
  workspace_id ← read_str "workspaceId" fs
  type ← read_str "type" fs
  name ← read_str "name" fs
  last_save_error ← read_opt_str "lastSaveError" fs
  some (record {
    id = id;
    workspace_id = workspace_id;
    type = type;
    name = name;
    last_save_error = last_save_error;
  })

-- `json.Unmarshal` into a `StorageResponse`.
unfoldable pub decode_storage_response : Json → Option StorageResponse
unfolding decode_storage_response_fields read_str read_opt_str
decode_storage_response = struct_of decode_storage_response_fields
