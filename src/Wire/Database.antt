-- ===== src/Wire/Database.antt =====
-- The requests and responses of internal/client/database.go, and their JSON.
use databasus_operator.Prelude.{ℕ, String, Bool, Option, some, List, ℤ}
use databasus_operator.Wire.Json.{
  Json, Fields, str, num, obj, end, omit_str, field_str, field_num, field_bool, omit_strs,
  omit_list, omit_none, read_str, read_opt_str, read_opt_time, struct_of, ◌>>=◌,
}

abbrev pub database_type_postgres_logical : String
database_type_postgres_logical = "POSTGRES_LOGICAL"

pub record PostgresqlLogicalRequest : Type 0 where
  pub version : String
  pub host : String
  pub port : ℤ
  pub username : String
  pub password : String
  pub database : Option String
  pub ssl_mode : String
  pub ssl_client_cert : String
  pub ssl_client_key : String
  pub ssl_root_cert : String
  pub include_schemas : List String
  pub exclude_tables : List String
  pub cpu_count : ℤ
  pub is_skip_user_mappings : Bool

pub record MysqlRequest : Type 0 where
  pub version : String
  pub host : String
  pub port : ℤ
  pub username : String
  pub password : String
  pub database : String
  pub is_https : Bool

pub record MariadbRequest : Type 0 where
  pub version : String
  pub host : String
  pub port : ℤ
  pub username : String
  pub password : String
  pub database : String
  pub is_https : Bool

pub record MongodbRequest : Type 0 where
  pub version : String
  pub host : String
  pub port : Option ℤ
  pub username : String
  pub password : String
  pub database : String
  pub auth_database : String
  pub is_https : Bool
  pub is_srv : Bool
  pub is_direct_connection : Bool
  pub cpu_count : ℤ

pub record NotifierRef : Type 0 where
  pub id : String
  pub workspace_id : String

pub record DatabaseRequest : Type 0 where
  pub id : String
  pub workspace_id : String
  pub name : String
  pub type : String
  pub postgresql_logical : Option PostgresqlLogicalRequest
  pub mysql : Option MysqlRequest
  pub mariadb : Option MariadbRequest
  pub mongodb : Option MongodbRequest
  pub notifiers : List NotifierRef

pub record DatabaseResponse : Type 0 where
  pub id : String
  pub workspace_id : Option String
  pub name : String
  pub type : String
  pub health_status : Option String
  pub last_backup_time : Option ℕ
  pub last_backup_error_message : Option String

unfoldable pub encode_postgresql_logical_request : PostgresqlLogicalRequest → Json
encode_postgresql_logical_request r = obj (
    field_str "version" r.version (
      field_str "host" r.host (
        field_num "port" r.port (
          field_str "username" r.username (
            field_str "password" r.password (
              omit_none "database" str r.database (
                omit_str "sslMode" r.ssl_mode (
                  omit_str "sslClientCert" r.ssl_client_cert (
                    omit_str "sslClientKey" r.ssl_client_key (
                      omit_str "sslRootCert" r.ssl_root_cert (
                        omit_strs "includeSchemas" r.include_schemas (
                          omit_strs "excludeTables" r.exclude_tables (
                            field_num "cpuCount" r.cpu_count (
                              field_bool "isSkipUserMappings" r.is_skip_user_mappings
                                end))))))))))))))

unfoldable pub encode_mysql_request : MysqlRequest → Json
encode_mysql_request r = obj (
    field_str "version" r.version (
      field_str "host" r.host (
        field_num "port" r.port (
          field_str "username" r.username (
            field_str "password" r.password
              (omit_str "database" r.database (field_bool "isHttps" r.is_https end)))))))

unfoldable pub encode_mariadb_request : MariadbRequest → Json
encode_mariadb_request r = obj (
    field_str "version" r.version (
      field_str "host" r.host (
        field_num "port" r.port (
          field_str "username" r.username (
            field_str "password" r.password
              (omit_str "database" r.database (field_bool "isHttps" r.is_https end)))))))

unfoldable pub encode_mongodb_request : MongodbRequest → Json
encode_mongodb_request r = obj (
    field_str "version" r.version (
      field_str "host" r.host (
        omit_none "port" num r.port (
          field_str "username" r.username (
            field_str "password" r.password (
              field_str "database" r.database (
                omit_str "authDatabase" r.auth_database (
                  field_bool "isHttps" r.is_https (
                    field_bool "isSrv" r.is_srv (
                      field_bool "isDirectConnection" r.is_direct_connection
                        (field_num "cpuCount" r.cpu_count end)))))))))))

unfoldable pub encode_notifier_ref : NotifierRef → Json
encode_notifier_ref r = obj (field_str "id" r.id (field_str "workspaceId" r.workspace_id end))

unfoldable pub encode_database_request : DatabaseRequest → Json
unfolding encode_postgresql_logical_request encode_mysql_request encode_mariadb_request
    encode_mongodb_request encode_notifier_ref
encode_database_request r = obj (
    omit_str "id" r.id (
      field_str "workspaceId" r.workspace_id (
        field_str "name" r.name (
          field_str "type" r.type (
            omit_none "postgresqlLogical" encode_postgresql_logical_request r.postgresql_logical (
              omit_none "mysql" encode_mysql_request r.mysql (
                omit_none "mariadb" encode_mariadb_request r.mariadb (
                  omit_none "mongodb" encode_mongodb_request r.mongodb
                    (omit_list "notifiers" encode_notifier_ref r.notifiers end)))))))))

decode_database_response_fields : Fields → Option DatabaseResponse
decode_database_response_fields fs = do
  id ← read_str "id" fs
  workspace_id ← read_opt_str "workspaceId" fs
  name ← read_str "name" fs
  type ← read_str "type" fs
  health_status ← read_opt_str "healthStatus" fs
  last_backup_time ← read_opt_time "lastBackupTime" fs
  last_backup_error_message ← read_opt_str "lastBackupErrorMessage" fs
  some (record {
    id = id;
    workspace_id = workspace_id;
    name = name;
    type = type;
    health_status = health_status;
    last_backup_time = last_backup_time;
    last_backup_error_message = last_backup_error_message;
  })

-- `json.Unmarshal` into a `DatabaseResponse`.
unfoldable pub decode_database_response : Json → Option DatabaseResponse
unfolding decode_database_response_fields read_str read_opt_str read_opt_time
decode_database_response = struct_of decode_database_response_fields
