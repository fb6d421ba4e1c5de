-- ===== src/Controller/Notifier/Build.antt =====
-- internal/controller/notifier_controller.go: the request that a Notifier asks for.
use databasus_operator.Prelude.{
  String, ◌<>◌, ◌==◌, Option, none, some, List, [], ◌∷◌, ◌++◌, if◌then◌else◌,
}
use databasus_operator.Prelude.Text.{quote}
use databasus_operator.Api.Meta.{SecretKeyRef}
use databasus_operator.Api.Notifier.{
  Notifier, DiscordNotifierSpec, TelegramNotifierSpec, SlackNotifierSpec, EmailNotifierSpec,
  WebhookNotifierSpec, WebhookHeader, TeamsNotifierSpec,
}
use databasus_operator.Wire.Notifier.{
  NotifierRequest, EmailRequest, WebhookRequest, WebhookHeaderRequest,
}
use databasus_operator.Effects.{text_error, ok, Env, Run, pure, fail, fetch_secret}
use databasus_operator.Effects.Plain.{mapped}
use databasus_operator.Effects.Fallible.{◌>>=◌, wrap_error}
use databasus_operator.Client.Request.{DatabasusClient}
use databasus_operator.Controller.Secret.{key_of}

module _ {S : Type 0} (E : Env S) where
  unfoldable pub resolve_secret_ref : String → SecretKeyRef → Run S String
  unfolding key_of
  resolve_secret_ref namespace ref =
      mapped (key_of ref) (fetch_secret E (record { namespace = namespace; name = ref.name }))

  -- A reference that may be nil; a nil one leaves the field as it is.
  unfoldable pub resolve_optional : String → String → String → Option SecretKeyRef → Run S String
  unfolding resolve_secret_ref
  resolve_optional prefix namespace value none = pure (ok value)
  resolve_optional prefix namespace value (some ref) =
      wrap_error prefix (resolve_secret_ref namespace ref)

  -- The loop over the headers of a webhook, with the headers so far.
  unfoldable pub resolve_headers :
      String → List WebhookHeader → List WebhookHeaderRequest → Run S (List WebhookHeaderRequest)
  unfolding resolve_optional quote
  resolve_headers namespace [] done = pure (ok done)
  resolve_headers namespace (header ∷ rest) done = do
    value ←
        resolve_optional ("failed to resolve webhook header " <> quote header.key) namespace
          header.value header.value_secret_ref
    let resolved : WebhookHeaderRequest = record { key = header.key; value = value }
    resolve_headers namespace rest (done ++ (resolved ∷ []))

module _ {S : Type 0} (E : Env S) (c : DatabasusClient) where
  abbrev pub base_request : Notifier → NotifierRequest
  base_request notifier = record {
    id = "";
    workspace_id = c.workspace_id;
    name = notifier.spec.name;
    notifier_type = notifier.spec.type;
    discord_notifier = none;
    telegram_notifier = none;
    slack_notifier = none;
    email_notifier = none;
    webhook_notifier = none;
    teams_notifier = none;
  }

module _ {S : Type 0} (E : Env S) (c : DatabasusClient) (notifier : Notifier) where
  abbrev base : NotifierRequest
  base = base_request E c notifier

  abbrev secret : String → SecretKeyRef → Run S String
  secret prefix ref = wrap_error prefix (resolve_secret_ref E notifier.metadata.namespace ref)

  unfoldable pub discord_request : Option DiscordNotifierSpec → Run S NotifierRequest
  discord_request none = fail (text_error "discord spec is required for DISCORD notifier type")
  discord_request (some spec) = do
    url ← secret "failed to resolve discord webhook URL" spec.webhook_url_secret_ref
    pure (ok (record base { discord_notifier = some (record { channel_webhook_url = url }) }))

  unfoldable pub telegram_request : Option TelegramNotifierSpec → Run S NotifierRequest
  telegram_request none = fail (text_error "telegram spec is required for TELEGRAM notifier type")
  telegram_request (some spec) = do
    token ← secret "failed to resolve telegram bot token" spec.bot_token_secret_ref
    pure (
        ok (record base {
          telegram_notifier = some (record {
            bot_token = token;
            target_chat_id = spec.target_chat_id;
            thread_id = spec.thread_id;
          });
        }))

  unfoldable pub slack_request : Option SlackNotifierSpec → Run S NotifierRequest
  slack_request none = fail (text_error "slack spec is required for SLACK notifier type")
  slack_request (some spec) = do
    token ← secret "failed to resolve slack bot token" spec.bot_token_secret_ref
    pure (
        ok (record base {
          slack_notifier =
              some (record { bot_token = token; target_chat_id = spec.target_chat_id });
        }))

  unfoldable pub email_request : Option EmailNotifierSpec → Run S NotifierRequest
  unfolding resolve_optional
  email_request none = fail (text_error "email spec is required for EMAIL notifier type")
  email_request (some spec) = do
    password ←
        resolve_optional E "failed to resolve smtp password" notifier.metadata.namespace ""
          spec.smtp_password_secret_ref
    let details : EmailRequest = record {
      target_email = spec.target_email;
      smtp_host = spec.smtp_host;
      smtp_port = spec.smtp_port;
      smtp_user = spec.smtp_user;
      smtp_password = password;
      from = spec.from;
      is_insecure_skip_verify = spec.is_insecure_skip_verify;
    }
    pure (ok (record base { email_notifier = some details }))

  unfoldable pub webhook_request : Option WebhookNotifierSpec → Run S NotifierRequest
  unfolding resolve_headers
  webhook_request none = fail (text_error "webhook spec is required for WEBHOOK notifier type")
  webhook_request (some spec) = do
    headers ← resolve_headers E notifier.metadata.namespace spec.headers []
    let details : WebhookRequest = record {
      webhook_url = spec.webhook_url;
      webhook_method = spec.webhook_method;
      body_template = spec.body_template;
      headers = headers;
    }
    pure (ok (record base { webhook_notifier = some details }))

  unfoldable pub teams_request : Option TeamsNotifierSpec → Run S NotifierRequest
  teams_request none = fail (text_error "teams spec is required for TEAMS notifier type")
  teams_request (some spec) = do
    url ← secret "failed to resolve teams webhook URL" spec.webhook_url_secret_ref
    pure (ok (record base { teams_notifier = some (record { channel_webhook_url = url }) }))

module _ {S : Type 0} (E : Env S) (c : DatabasusClient) where
  unfoldable pub build_notifier_request : Notifier → Run S NotifierRequest
  unfolding discord_request telegram_request slack_request email_request webhook_request
      teams_request
  build_notifier_request notifier =
      if notifier.spec.type == "DISCORD"
      then discord_request E c notifier notifier.spec.discord
      else if notifier.spec.type == "TELEGRAM"
      then telegram_request E c notifier notifier.spec.telegram
      else if notifier.spec.type == "SLACK"
      then slack_request E c notifier notifier.spec.slack
      else if notifier.spec.type == "EMAIL"
      then email_request E c notifier notifier.spec.email
      else if notifier.spec.type == "WEBHOOK"
      then webhook_request E c notifier notifier.spec.webhook
      else if notifier.spec.type == "TEAMS"
      then teams_request E c notifier notifier.spec.teams
      else pure (ok (base_request E c notifier))
