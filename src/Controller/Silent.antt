-- ===== src/Controller/Silent.antt =====
-- What the reconcilers read, they read without a trace: the resolution of references and Secrets,
-- and the requests built from them, add nothing to the log.
use databasus_operator.Prelude.{String, Option, none, some, List, [], ◌∷◌}
use databasus_operator.Api.Storage.{Storage, S3StorageSpec, SftpStorageSpec}
use databasus_operator.Api.Meta.{SecretKeyRef}
use databasus_operator.Api.Notifier.{
  Notifier, DiscordNotifierSpec, TelegramNotifierSpec, SlackNotifierSpec, EmailNotifierSpec,
  WebhookNotifierSpec, WebhookHeader, TeamsNotifierSpec,
}
use databasus_operator.Api.DatabaseBackup.{DatabaseBackup, PostgresqlDatabaseSpec}
use databasus_operator.Wire.Notifier.{WebhookHeaderRequest}
use databasus_operator.Effects.{Env}
use databasus_operator.Effects.Logs.{Logs, Silent, log_rules}
use databasus_operator.Client.Request.{DatabasusClient}
use databasus_operator.Controller.Storage.Build as StorageBuild
use databasus_operator.Controller.Notifier.Build as NotifierBuild
use databasus_operator.Controller.DatabaseBackup.Resolve

module _ {S : Type 0} (E : Env S) (c : DatabasusClient) where
  storage_optional-Silent :
      (prefix namespace : String) (ref : Option SecretKeyRef)
      → Logs Silent (StorageBuild.resolve_optional E prefix namespace ref)
  unfolding StorageBuild.resolve_optional
  storage_optional-Silent prefix namespace none = search log_rules
  storage_optional-Silent prefix namespace (some ref) = search log_rules

  s3_request-Silent :
      (s : Storage) (o : Option S3StorageSpec) → Logs Silent (StorageBuild.s3_request E c s o)
  unfolding StorageBuild.s3_request
  s3_request-Silent s none = search log_rules
  s3_request-Silent s (some spec) = search log_rules

  sftp_request-Silent :
      (s : Storage) (o : Option SftpStorageSpec) → Logs Silent (StorageBuild.sftp_request E c s o)
  unfolding StorageBuild.sftp_request
  sftp_request-Silent s none = search log_rules
  sftp_request-Silent s (some spec) = search (log_rules, storage_optional-Silent)

  pub build_storage_request-Silent :
      (s : Storage) → Logs Silent (StorageBuild.build_storage_request E c s)
  unfolding StorageBuild.build_storage_request
  build_storage_request-Silent s = search (log_rules, s3_request-Silent, sftp_request-Silent)

  notifier_optional-Silent :
      (prefix namespace value : String) (ref : Option SecretKeyRef)
      → Logs Silent (NotifierBuild.resolve_optional E prefix namespace value ref)
  unfolding NotifierBuild.resolve_optional
  notifier_optional-Silent prefix namespace value none = search log_rules
  notifier_optional-Silent prefix namespace value (some ref) = search log_rules

  resolve_headers-Silent :
      (namespace : String) (headers : List WebhookHeader) (done : List WebhookHeaderRequest)
      → Logs Silent (NotifierBuild.resolve_headers E namespace headers done)
  unfolding NotifierBuild.resolve_headers
  resolve_headers-Silent namespace [] done = search log_rules
  resolve_headers-Silent namespace (h ∷ rest) done =
      search (log_rules, notifier_optional-Silent, resolve_headers-Silent namespace rest)

module _ {S : Type 0} (E : Env S) (c : DatabasusClient) (n : Notifier) where
  discord_request-Silent :
      (o : Option DiscordNotifierSpec) → Logs Silent (NotifierBuild.discord_request E c n o)
  unfolding NotifierBuild.discord_request NotifierBuild.resolve_secret_ref
  discord_request-Silent none = search log_rules
  discord_request-Silent (some spec) = search log_rules

  telegram_request-Silent :
      (o : Option TelegramNotifierSpec) → Logs Silent (NotifierBuild.telegram_request E c n o)
  unfolding NotifierBuild.telegram_request NotifierBuild.resolve_secret_ref
  telegram_request-Silent none = search log_rules
  telegram_request-Silent (some spec) = search log_rules

  slack_request-Silent :
      (o : Option SlackNotifierSpec) → Logs Silent (NotifierBuild.slack_request E c n o)
  unfolding NotifierBuild.slack_request NotifierBuild.resolve_secret_ref
  slack_request-Silent none = search log_rules
  slack_request-Silent (some spec) = search log_rules

  email_request-Silent :
      (o : Option EmailNotifierSpec) → Logs Silent (NotifierBuild.email_request E c n o)
  unfolding NotifierBuild.email_request
  email_request-Silent none = search log_rules
  email_request-Silent (some spec) = search (log_rules, notifier_optional-Silent E c)

  webhook_request-Silent :
      (o : Option WebhookNotifierSpec) → Logs Silent (NotifierBuild.webhook_request E c n o)
  unfolding NotifierBuild.webhook_request
  webhook_request-Silent none = search log_rules
  webhook_request-Silent (some spec) = search (log_rules, resolve_headers-Silent E c)

  teams_request-Silent :
      (o : Option TeamsNotifierSpec) → Logs Silent (NotifierBuild.teams_request E c n o)
  unfolding NotifierBuild.teams_request NotifierBuild.resolve_secret_ref
  teams_request-Silent none = search log_rules
  teams_request-Silent (some spec) = search log_rules

module _ {S : Type 0} (E : Env S) (c : DatabasusClient) where
  pub build_notifier_request-Silent :
      (n : Notifier) → Logs Silent (NotifierBuild.build_notifier_request E c n)
  unfolding NotifierBuild.build_notifier_request
  build_notifier_request-Silent n =
      search
        (
          log_rules, discord_request-Silent, telegram_request-Silent, slack_request-Silent,
          email_request-Silent, webhook_request-Silent, teams_request-Silent,
        )
        depth 10

module _ {S : Type 0} (E : Env S) where
  pub resolve_storage_ref-Silent :
      (namespace name : String) → Logs Silent (Resolve.resolve_storage_ref E namespace name)
  unfolding Resolve.resolve_storage_ref
  resolve_storage_ref-Silent namespace name = search log_rules

  resolve_notifiers-Silent :
      (namespace : String) (names ids : List String)
      → Logs Silent (Resolve.resolve_notifiers E namespace names ids)
  unfolding Resolve.resolve_notifiers
  resolve_notifiers-Silent namespace [] ids = search log_rules
  resolve_notifiers-Silent namespace (name ∷ rest) ids =
      search (log_rules, resolve_notifiers-Silent namespace rest)

  pub resolve_notifier_refs-Silent :
      (namespace : String) (names : List String)
      → Logs Silent (Resolve.resolve_notifier_refs E namespace names)
  unfolding Resolve.resolve_notifier_refs
  resolve_notifier_refs-Silent namespace names = resolve_notifiers-Silent namespace names []

  pub resolve_database_password-Silent :
      (b : DatabaseBackup) → Logs Silent (Resolve.resolve_database_password E b)
  unfolding Resolve.resolve_database_password
  resolve_database_password-Silent b = search log_rules

  optional-Silent :
      (prefix namespace : String) (ref : Option SecretKeyRef)
      → Logs Silent (Resolve.resolve_optional E prefix namespace ref)
  unfolding Resolve.resolve_optional
  optional-Silent prefix namespace none = search log_rules
  optional-Silent prefix namespace (some ref) = search log_rules

  resolve_ssl_refs-Silent :
      (namespace : String) (pg : PostgresqlDatabaseSpec)
      → Logs Silent (Resolve.resolve_ssl_refs E namespace pg)
  unfolding Resolve.resolve_ssl_refs
  resolve_ssl_refs-Silent namespace pg = search (log_rules, optional-Silent) depth 10

  resolve_section-Silent :
      (namespace : String) (o : Option PostgresqlDatabaseSpec)
      → Logs Silent (Resolve.resolve_section E namespace o)
  unfolding Resolve.resolve_section
  resolve_section-Silent namespace none = search log_rules
  resolve_section-Silent namespace (some pg) = resolve_ssl_refs-Silent namespace pg

  pub resolve_postgres_ssl-Silent :
      (b : DatabaseBackup) → Logs Silent (Resolve.resolve_postgres_ssl E b)
  unfolding Resolve.resolve_postgres_ssl
  resolve_postgres_ssl-Silent b = search (log_rules, resolve_section-Silent)
