-- ===== src/Controller/DatabaseBackup/Resolve.antt =====
-- internal/controller/databasebackup_controller.go: the references of a DatabaseBackup, to a
-- Storage, to Notifiers and to Secrets.
use databasus_operator.Prelude.{
  String, ◌<>◌, ◌==◌, Bool, false, Option, none, some, List, [], ◌∷◌, ◌++◌, if◌then◌else◌, not,
}
use databasus_operator.Prelude.Text.{quote}
use databasus_operator.Api.Meta.{SecretKeyRef, Condition, condition_true}
use databasus_operator.Api.Storage.{Storage}
use databasus_operator.Api.Notifier.{Notifier}
use databasus_operator.Api.DatabaseBackup.{
  DatabaseBackup, DatabaseSpec, PostgresqlDatabaseSpec, MysqlDatabaseSpec, MariadbDatabaseSpec,
  MongodbDatabaseSpec,
}
use databasus_operator.Effects.{
  text_error, Res, ok, err, Got, found, get_error, Env, Run, pure, fetch_storage, fetch_notifier,
  fetch_secret,
}
use databasus_operator.Effects.Plain.{mapped}
use databasus_operator.Effects.Fallible.{◌>>=◌, wrap_error}
use databasus_operator.Controller.Secret.{key_of}

-- `readyCond != nil && readyCond.Status == metav1.ConditionTrue`
abbrev pub is_true : Option Condition → Bool
is_true none = false
is_true (some c) = c.status == condition_true

module _ {S : Type 0} (E : Env S) where
  -- What follows the `Get` of the Storage.
  unfoldable pub storage_id_of : String → Got Storage → Res String
  unfolding quote
  storage_id_of name (get_error e) =
      err (text_error ("storage " <> (quote name <> (" not found: " <> e.message))))
  storage_id_of name (found storage) =
      if storage.status.id == ""
      then err (text_error ("storage " <> (quote name <> " not yet synced (no ID in status)")))
      else if not (is_true (E.find_status_condition storage.status.conditions "Ready"))
      then err (text_error ("storage " <> (quote name <> " is not ready")))
      else ok storage.status.id

  unfoldable pub resolve_storage_ref : String → String → Run S String
  unfolding storage_id_of
  resolve_storage_ref namespace name =
      mapped (storage_id_of name) (fetch_storage E (record { namespace = namespace; name = name }))

  -- The body of the loop, from the `Get` of the Notifier on.
  unfoldable pub notifier_id_of : String → Got Notifier → Res String
  unfolding quote
  notifier_id_of name (get_error e) =
      err (text_error ("notifier " <> (quote name <> (" not found: " <> e.message))))
  notifier_id_of name (found notifier) =
      if notifier.status.id == ""
      then err (text_error ("notifier " <> (quote name <> " not yet synced (no ID in status)")))
      else if not (is_true (E.find_status_condition notifier.status.conditions "Ready"))
      then err (text_error ("notifier " <> (quote name <> " is not ready")))
      else ok notifier.status.id

  unfoldable pub resolve_notifier_ref : String → String → Run S String
  unfolding notifier_id_of
  resolve_notifier_ref namespace name =
      mapped (notifier_id_of name)
        (fetch_notifier E (record { namespace = namespace; name = name }))

  -- The loop, with the identifiers so far.
  unfoldable pub resolve_notifiers : String → List String → List String → Run S (List String)
  unfolding resolve_notifier_ref
  resolve_notifiers namespace [] ids = pure (ok ids)
  resolve_notifiers namespace (name ∷ rest) ids = do
    id ← resolve_notifier_ref namespace name
    resolve_notifiers namespace rest (ids ++ (id ∷ []))

  unfoldable pub resolve_notifier_refs : String → List String → Run S (List String)
  unfolding resolve_notifiers
  resolve_notifier_refs namespace names = resolve_notifiers namespace names []

  unfoldable pub get_secret_value : String → SecretKeyRef → Run S String
  unfolding key_of
  get_secret_value namespace ref =
      mapped (key_of ref) (fetch_secret E (record { namespace = namespace; name = ref.name }))

-- The `passwordSecretRef` of the section that the type names.
abbrev section_ref : {A : Type 0} → String → (A → SecretKeyRef) → Option A → Res SecretKeyRef
section_ref name ref none = err (text_error (name <> " spec is required"))
section_ref name ref (some spec) = ok (ref spec)

unfoldable pub password_ref : DatabaseSpec → Res SecretKeyRef
password_ref db =
    if db.type == "POSTGRES"
    then section_ref "postgresql" (λ (spec : PostgresqlDatabaseSpec). spec.password_secret_ref)
        db.postgresql
    else if db.type == "MYSQL"
    then section_ref "mysql" (λ (spec : MysqlDatabaseSpec). spec.password_secret_ref) db.mysql
    else if db.type == "MARIADB"
    then section_ref "mariadb" (λ (spec : MariadbDatabaseSpec). spec.password_secret_ref) db.mariadb
    else if db.type == "MONGODB"
    then section_ref "mongodb" (λ (spec : MongodbDatabaseSpec). spec.password_secret_ref) db.mongodb
    else err (text_error ("unsupported database type: " <> db.type))

-- The resolved PEM data of the SSL secrets.
pub record PostgresSslMaterial : Type 0 where
  pub client_cert : String
  pub client_key : String
  pub root_cert : String

abbrev pub no_ssl : PostgresSslMaterial
no_ssl = record { client_cert = ""; client_key = ""; root_cert = "" }

module _ {S : Type 0} (E : Env S) where
  unfoldable pub resolve_database_password : DatabaseBackup → Run S String
  unfolding password_ref get_secret_value
  resolve_database_password backup = do
    ref ← pure (password_ref backup.spec.database)
    get_secret_value E backup.metadata.namespace ref

  -- A reference that may be nil; a nil one leaves the field empty.
  unfoldable pub resolve_optional : String → String → Option SecretKeyRef → Run S String
  unfolding get_secret_value
  resolve_optional prefix namespace none = pure (ok "")
  resolve_optional prefix namespace (some ref) =
      wrap_error prefix (get_secret_value E namespace ref)

  unfoldable pub resolve_ssl_refs : String → PostgresqlDatabaseSpec → Run S PostgresSslMaterial
  unfolding resolve_optional
  resolve_ssl_refs namespace pg = do
    client_cert ←
        resolve_optional "resolving sslClientCertSecretRef" namespace pg.ssl_client_cert_secret_ref
    client_key ←
        resolve_optional "resolving sslClientKeySecretRef" namespace pg.ssl_client_key_secret_ref
    root_cert ←
        resolve_optional "resolving sslRootCertSecretRef" namespace pg.ssl_root_cert_secret_ref
    pure (ok (record { client_cert = client_cert; client_key = client_key; root_cert = root_cert }))

  unfoldable pub resolve_section :
      String → Option PostgresqlDatabaseSpec → Run S PostgresSslMaterial
  unfolding resolve_ssl_refs
  resolve_section namespace none = pure (ok no_ssl)
  resolve_section namespace (some pg) = resolve_ssl_refs namespace pg

  unfoldable pub resolve_postgres_ssl : DatabaseBackup → Run S PostgresSslMaterial
  unfolding resolve_section
  resolve_postgres_ssl backup =
      if not (backup.spec.database.type == "POSTGRES")
      then pure (ok no_ssl)
      else resolve_section backup.metadata.namespace backup.spec.database.postgresql
