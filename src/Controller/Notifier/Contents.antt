-- ===== src/Controller/Notifier/Contents.antt =====
-- internal/controller/notifier_controller.go: what the request for a Notifier says.
pub mod Built
use databasus_operator.Prelude.{
  String, ◌==◌, ◌≡◌, refl, false, true, none, some, Option, eq_iff, List, [], ◌∷◌, ◌++◌, append-nil,
  append_assoc, sym, ◌∙◌, ◌<>◌,
}
use databasus_operator.Prelude.Text.{quote}
use databasus_operator.Api.Meta.{SecretKeyRef}
use databasus_operator.Api.Notifier.{
  Notifier, DiscordNotifierSpec, TelegramNotifierSpec, SlackNotifierSpec, EmailNotifierSpec,
  WebhookNotifierSpec, WebhookHeader, TeamsNotifierSpec,
}
use databasus_operator.Wire.Notifier.{NotifierRequest, WebhookHeaderRequest}
use databasus_operator.Effects.{Env, World, ok}
use databasus_operator.Effects.Yields.{
  Yields, Yields-pure, Yields-fail, Yields-if, Yields-wrap_error, Yields-bind,
}
use databasus_operator.Client.Request.{DatabasusClient}
use databasus_operator.Controller.Secret.Holds.{Holds, HoldsOr, secret-Yields}
use databasus_operator.Controller.Notifier.Build.{
  resolve_secret_ref, resolve_optional, resolve_headers, base_request, discord_request,
  telegram_request, slack_request, email_request, webhook_request, teams_request,
  build_notifier_request,
}

module _ {S : Type 0} (E : Env S) (namespace : String) where
  -- The headers of a request for those of a specification: the same keys, in the same order, each
  -- with the value of the Secret that it refers to, or else with its own.
  pub data AreHeaders : List WebhookHeader → List WebhookHeaderRequest → Type 0 where
    no_headers : AreHeaders [] []
    one_more :
        {h : WebhookHeader} {value : String} {hs : List WebhookHeader}
        {rs : List WebhookHeaderRequest}
        → HoldsOr E namespace h.value h.value_secret_ref value
        → AreHeaders hs rs
        → AreHeaders (h ∷ hs) (record { key = h.key; value = value } ∷ rs)

module _ {S : Type 0} (E : Env S) (c : DatabasusClient) (n : Notifier) where
  -- The name, the type, the workspace, and no section.
  abbrev pub no_section : NotifierRequest
  no_section = record {
    id = "";
    workspace_id = c.workspace_id;
    name = n.spec.name;
    notifier_type = n.spec.type;
    discord_notifier = none;
    telegram_notifier = none;
    slack_notifier = none;
    email_notifier = none;
    webhook_notifier = none;
    teams_notifier = none;
  }

  -- The request of the type that is given: the name, the type, the workspace, and one section, with
  -- the secrets that its references name.
  pub data Says : NotifierRequest → Type 0 where
    is_discord :
        {spec : DiscordNotifierSpec} {url : String}
        → n.spec.type ≡ "DISCORD"
        → n.spec.discord ≡ some spec
        → Holds E n.metadata.namespace spec.webhook_url_secret_ref url
        → Says
            (record no_section { discord_notifier = some (record { channel_webhook_url = url }) })
    is_telegram :
        {spec : TelegramNotifierSpec} {token : String}
        → n.spec.type ≡ "TELEGRAM"
        → n.spec.telegram ≡ some spec
        → Holds E n.metadata.namespace spec.bot_token_secret_ref token
        → Says (record no_section {
          telegram_notifier = some (record {
            bot_token = token;
            target_chat_id = spec.target_chat_id;
            thread_id = spec.thread_id;
          });
        })
    is_slack :
        {spec : SlackNotifierSpec} {token : String}
        → n.spec.type ≡ "SLACK"
        → n.spec.slack ≡ some spec
        → Holds E n.metadata.namespace spec.bot_token_secret_ref token
        → Says (record no_section {
          slack_notifier =
              some (record { bot_token = token; target_chat_id = spec.target_chat_id });
        })
    is_email :
        {spec : EmailNotifierSpec} {password : String}
        → n.spec.type ≡ "EMAIL"
        → n.spec.email ≡ some spec
        → HoldsOr E n.metadata.namespace "" spec.smtp_password_secret_ref password
        → Says (record no_section {
          email_notifier = some (record {
            target_email = spec.target_email;
            smtp_host = spec.smtp_host;
            smtp_port = spec.smtp_port;
            smtp_user = spec.smtp_user;
            smtp_password = password;
            from = spec.from;
            is_insecure_skip_verify = spec.is_insecure_skip_verify;
          });
        })
    is_webhook :
        {spec : WebhookNotifierSpec} {headers : List WebhookHeaderRequest}
        → n.spec.type ≡ "WEBHOOK"
        → n.spec.webhook ≡ some spec
        → AreHeaders E n.metadata.namespace spec.headers headers
        → Says (record no_section {
          webhook_notifier = some (record {
            webhook_url = spec.webhook_url;
            webhook_method = spec.webhook_method;
            body_template = spec.body_template;
            headers = headers;
          });
        })
    is_teams :
        {spec : TeamsNotifierSpec} {url : String}
        → n.spec.type ≡ "TEAMS"
        → n.spec.teams ≡ some spec
        → Holds E n.metadata.namespace spec.webhook_url_secret_ref url
        → Says (record no_section { teams_notifier = some (record { channel_webhook_url = url }) })
    is_other :
        (n.spec.type == "DISCORD") ≡ false
        → (n.spec.type == "TELEGRAM") ≡ false
        → (n.spec.type == "SLACK") ≡ false
        → (n.spec.type == "EMAIL") ≡ false
        → (n.spec.type == "WEBHOOK") ≡ false
        → (n.spec.type == "TEAMS") ≡ false
        → Says no_section
