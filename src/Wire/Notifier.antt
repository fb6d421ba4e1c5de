-- ===== src/Wire/Notifier.antt =====
-- The requests and responses of internal/client/notifier.go, and their JSON.
use databasus_operator.Prelude.{String, Bool, Option, some, List, ℤ}
use databasus_operator.Wire.Json.{
  Json, Fields, num, obj, end, omit_str, field_str, field_num, field_bool, omit_list, omit_none,
  read_str, read_opt_str, struct_of, ◌>>=◌,
}

pub record DiscordRequest : Type 0 where
  pub channel_webhook_url : String

pub record TelegramRequest : Type 0 where
  pub bot_token : String
  pub target_chat_id : String
  pub thread_id : Option ℤ

pub record SlackRequest : Type 0 where
  pub bot_token : String
  pub target_chat_id : String

pub record EmailRequest : Type 0 where
  pub target_email : String
  pub smtp_host : String
  pub smtp_port : ℤ
  pub smtp_user : String
  pub smtp_password : String
  pub from : String
  pub is_insecure_skip_verify : Bool

pub record WebhookHeaderRequest : Type 0 where
  pub key : String
  pub value : String

pub record WebhookRequest : Type 0 where
  pub webhook_url : String
  pub webhook_method : String
  pub body_template : String
  pub headers : List WebhookHeaderRequest

pub record TeamsRequest : Type 0 where
  pub channel_webhook_url : String

pub record NotifierRequest : Type 0 where
  pub id : String
  pub workspace_id : String
  pub name : String
  pub notifier_type : String
  pub discord_notifier : Option DiscordRequest
  pub telegram_notifier : Option TelegramRequest
  pub slack_notifier : Option SlackRequest
  pub email_notifier : Option EmailRequest
  pub webhook_notifier : Option WebhookRequest
  pub teams_notifier : Option TeamsRequest

pub record NotifierResponse : Type 0 where
  pub id : String
  pub workspace_id : String
  pub name : String
  pub notifier_type : String
  pub last_send_error : Option String

unfoldable pub encode_discord_request : DiscordRequest → Json
encode_discord_request r = obj (field_str "channelWebhookUrl" r.channel_webhook_url end)

unfoldable pub encode_telegram_request : TelegramRequest → Json
encode_telegram_request r = obj (
    field_str "botToken" r.bot_token
      (field_str "targetChatId" r.target_chat_id (omit_none "threadId" num r.thread_id end)))

unfoldable pub encode_slack_request : SlackRequest → Json
encode_slack_request r =
    obj (field_str "botToken" r.bot_token (field_str "targetChatId" r.target_chat_id end))

unfoldable pub encode_email_request : EmailRequest → Json
encode_email_request r = obj (
    field_str "targetEmail" r.target_email (
      field_str "smtpHost" r.smtp_host (
        field_num "smtpPort" r.smtp_port (
          omit_str "smtpUser" r.smtp_user (
            omit_str "smtpPassword" r.smtp_password (
              omit_str "from" r.from
                (field_bool "isInsecureSkipVerify" r.is_insecure_skip_verify end)))))))

unfoldable pub encode_webhook_header_request : WebhookHeaderRequest → Json
encode_webhook_header_request r = obj (field_str "key" r.key (field_str "value" r.value end))

unfoldable pub encode_webhook_request : WebhookRequest → Json
unfolding encode_webhook_header_request
encode_webhook_request r = obj (
    field_str "webhookUrl" r.webhook_url (
      field_str "webhookMethod" r.webhook_method (
        omit_str "bodyTemplate" r.body_template
          (omit_list "headers" encode_webhook_header_request r.headers end))))

unfoldable pub encode_teams_request : TeamsRequest → Json
encode_teams_request r = obj (field_str "channelWebhookUrl" r.channel_webhook_url end)

unfoldable pub encode_notifier_request : NotifierRequest → Json
unfolding encode_discord_request encode_telegram_request encode_slack_request encode_email_request
    encode_webhook_request encode_teams_request
encode_notifier_request r = obj (
    omit_str "id" r.id (
      field_str "workspaceId" r.workspace_id (
        field_str "name" r.name (
          field_str "notifierType" r.notifier_type (
            omit_none "discordNotifier" encode_discord_request r.discord_notifier (
              omit_none "telegramNotifier" encode_telegram_request r.telegram_notifier (
                omit_none "slackNotifier" encode_slack_request r.slack_notifier (
                  omit_none "emailNotifier" encode_email_request r.email_notifier (
                    omit_none "webhookNotifier" encode_webhook_request r.webhook_notifier
                      (omit_none "teamsNotifier" encode_teams_request r.teams_notifier end))))))))))

decode_notifier_response_fields : Fields → Option NotifierResponse
decode_notifier_response_fields fs = do
  id ← read_str "id" fs
  workspace_id ← read_str "workspaceId" fs
  name ← read_str "name" fs
  notifier_type ← read_str "notifierType" fs
  last_send_error ← read_opt_str "lastSendError" fs
  some (record {
    id = id;
    workspace_id = workspace_id;
    name = name;
    notifier_type = notifier_type;
    last_send_error = last_send_error;
  })

-- `json.Unmarshal` into a `NotifierResponse`.
unfoldable pub decode_notifier_response : Json → Option NotifierResponse
unfolding decode_notifier_response_fields read_str read_opt_str
decode_notifier_response = struct_of decode_notifier_response_fields
