-- ===== src/Api/Storage.antt =====
-- api/v1alpha1/storage_types.go: the spec and the status of a Storage.
use databasus_operator.Prelude.{String, Bool, Option, List, ℤ}
use databasus_operator.Api.Meta.{SecretKeyRef, ObjectMeta, Condition}

abbrev pub storage_type_local : String
storage_type_local = "LOCAL"

abbrev pub storage_type_s3 : String
storage_type_s3 = "S3"

abbrev pub storage_type_google_drive : String
storage_type_google_drive = "GOOGLE_DRIVE"

abbrev pub storage_type_nas : String
storage_type_nas = "NAS"

abbrev pub storage_type_azure_blob : String
storage_type_azure_blob = "AZURE_BLOB"

abbrev pub storage_type_ftp : String
storage_type_ftp = "FTP"

abbrev pub storage_type_sftp : String
storage_type_sftp = "SFTP"

abbrev pub storage_type_rclone : String
storage_type_rclone = "RCLONE"

pub record S3StorageSpec : Type 0 where
  pub bucket : String
  pub region : String
  pub endpoint : String
  pub prefix : String
  pub access_key_secret_ref : SecretKeyRef
  pub secret_key_secret_ref : SecretKeyRef
  pub is_use_virtual_hosted_style : Bool
  pub is_skip_tls_verify : Bool
  pub storage_class : String

pub record SftpStorageSpec : Type 0 where
  pub host : String
  pub port : ℤ
  pub username : String
  pub password_secret_ref : Option SecretKeyRef
  pub private_key_secret_ref : Option SecretKeyRef
  pub path : String
  pub is_skip_host_key_verify : Bool

pub record AzureBlobStorageSpec : Type 0 where
  pub auth_method : String
  pub connection_string_secret_ref : Option SecretKeyRef
  pub account_name : String
  pub account_key_secret_ref : Option SecretKeyRef
  pub container_name : String
  pub endpoint : String
  pub prefix : String

pub record LocalStorageSpec : Type 0 where
  pub path : String

pub record FtpStorageSpec : Type 0 where
  pub host : String
  pub port : ℤ
  pub username : String
  pub password_secret_ref : SecretKeyRef
  pub path : String
  pub is_use_ssl : Bool
  pub is_skip_tls_verify : Bool

pub record RcloneStorageSpec : Type 0 where
  pub config_content_secret_ref : SecretKeyRef
  pub remote_path : String

pub record NasStorageSpec : Type 0 where
  pub host : String
  pub port : ℤ
  pub share : String
  pub username : String
  pub password_secret_ref : SecretKeyRef
  pub is_use_ssl : Bool
  pub domain : String
  pub path : String

pub record GoogleDriveStorageSpec : Type 0 where
  pub client_id_secret_ref : SecretKeyRef
  pub client_secret_secret_ref : SecretKeyRef
  pub token_json_secret_ref : SecretKeyRef

pub record StorageSpec : Type 0 where
  pub name : String
  pub type : String
  pub s3 : Option S3StorageSpec
  pub sftp : Option SftpStorageSpec
  pub azure_blob : Option AzureBlobStorageSpec
  pub local : Option LocalStorageSpec
  pub ftp : Option FtpStorageSpec
  pub rclone : Option RcloneStorageSpec
  pub nas : Option NasStorageSpec
  pub google_drive : Option GoogleDriveStorageSpec

pub record StorageStatus : Type 0 where
  pub id : String
  pub observed_generation : ℤ
  pub conditions : List Condition

pub record Storage : Type 0 where
  pub metadata : ObjectMeta
  pub spec : StorageSpec
  pub status : StorageStatus
