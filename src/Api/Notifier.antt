-- ===== src/Api/Notifier.antt =====
-- api/v1alpha1/notifier_types.go: the spec and the status of a Notifier.
use databasus_operator.Prelude.{String, Bool, Option, List, ℤ}
use databasus_operator.Api.Meta.{SecretKeyRef, ObjectMeta, Condition}

abbrev pub notifier_type_email : String
notifier_type_email = "EMAIL"

abbrev pub notifier_type_telegram : String
notifier_type_telegram = "TELEGRAM"

abbrev pub notifier_type_webhook : String
notifier_type_webhook = "WEBHOOK"

abbrev pub notifier_type_slack : String
notifier_type_slack = "SLACK"

abbrev pub notifier_type_discord : String
notifier_type_discord = "DISCORD"

abbrev pub notifier_type_teams : String
notifier_type_teams = "TEAMS"

pub record DiscordNotifierSpec : Type 0 where
  pub webhook_url_secret_ref : SecretKeyRef

pub record SlackNotifierSpec : Type 0 where
  pub bot_token_secret_ref : SecretKeyRef
  pub target_chat_id : String

pub record TelegramNotifierSpec : Type 0 where
  pub bot_token_secret_ref : SecretKeyRef
  pub target_chat_id : String
  pub thread_id : Option ℤ

pub record EmailNotifierSpec : Type 0 where
  pub target_email : String
  pub smtp_host : String
  pub smtp_port : ℤ
  pub smtp_user : String
  pub smtp_password_secret_ref : Option SecretKeyRef
  pub from : String
  pub is_insecure_skip_verify : Bool

pub record WebhookHeader : Type 0 where
  pub key : String
  pub value_secret_ref : Option SecretKeyRef
  pub value : String

pub record WebhookNotifierSpec : Type 0 where
  pub webhook_url : String
  pub webhook_method : String
  pub body_template : String
  pub headers : List WebhookHeader

pub record TeamsNotifierSpec : Type 0 where
  pub webhook_url_secret_ref : SecretKeyRef

pub record NotifierSpec : Type 0 where
  pub name : String
  pub type : String
  pub discord : Option DiscordNotifierSpec
  pub slack : Option SlackNotifierSpec
  pub telegram : Option TelegramNotifierSpec
  pub email : Option EmailNotifierSpec
  pub webhook : Option WebhookNotifierSpec
  pub teams : Option TeamsNotifierSpec

pub record NotifierStatus : Type 0 where
  pub id : String
  pub observed_generation : ℤ
  pub conditions : List Condition

pub record Notifier : Type 0 where
  pub metadata : ObjectMeta
  pub spec : NotifierSpec
  pub status : NotifierStatus
