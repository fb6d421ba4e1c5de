-- ===== src/Startup.antt =====
-- cmd/main.go: the settings from the environment, and the client that the reconcilers share.
pub mod HandedOut
pub mod SignedIn
pub mod Options
pub mod Main
use databasus_operator.Prelude.{String, ◌<>◌, ◌==◌, ◌||◌, Option, none, some, List, if◌then◌else◌}
use databasus_operator.Api.Meta.{Secret}
use databasus_operator.Effects.{
  Error, text_error, Res, ok, err, Env, Run, pure, fail, reading, handle_got, handle_some,
  fetch_secret,
}
use databasus_operator.Effects.Plain
use databasus_operator.Effects.Plain.{mapped}
use databasus_operator.Effects.Fallible.{◌>>=◌, wrap_error, wrapped}
use databasus_operator.Client.Request.{DatabasusClient, new, health_check}
use databasus_operator.Client.Auth.{sign_in, resolve_workspace}
use databasus_operator.Controller.Secret.{lookup}

-- `os.Getenv`: the variables of the process, as an association list.
abbrev getenv : List (String × String) → String → String
getenv env name = elim (lookup name env) [ none ↦ "" | some v ↦ v ]

abbrev or_default : String → String → String
or_default value default = if value == "" then default else value

pub record Settings : Type 0 where
  pub api_url : String
  pub secret_name : String
  pub secret_namespace : String

unfoldable pub settings : List (String × String) → Settings
unfolding lookup
settings env = record {
  api_url =
      or_default (getenv env "DATABASUS_API_URL")
        "http://databasus-service.databasus.svc.cluster.local:4005";
  secret_name =
      or_default (getenv env "DATABASUS_CREDENTIALS_SECRET") "databasus-operator-credentials";
  secret_namespace =
      or_default
        (or_default (getenv env "DATABASUS_CREDENTIALS_NAMESPACE") (getenv env "POD_NAMESPACE"))
        "databasus";
}

-- `string(secret.Data[key])`: a key that is not there reads as the empty text.
abbrev pub value : Secret → String → String
value secret key = elim (lookup key secret.values) [ none ↦ "" | some v ↦ v ]

module _ {S : Type 0} (E : Env S) where
  -- The workspace of the secret, or else the one that the API gives for the name.
  unfoldable pub workspace_for : String → String → Secret → Run S String
  unfolding resolve_workspace new lookup
  workspace_for api_url token secret =
      if value secret "workspaceId" == ""
      then wrap_error "failed to resolve workspace" (
          resolve_workspace E
            (new (record { base_url = api_url; token = token; workspace_id = "" }))
            (value secret "workspaceName"))
      else pure (ok (value secret "workspaceId"))

  abbrev pub checked : DatabasusClient → Option Error → Res DatabasusClient
  checked c none = ok c
  checked c (some e) = err (wrapped "health check failed after auth" e)

  -- The last step: the client is handed out if the API answers.
  unfoldable pub verified : DatabasusClient → Run S DatabasusClient
  unfolding health_check
  verified c = mapped (checked c) (health_check E c)

  unfoldable pub authenticate : String → Secret → Run S DatabasusClient
  unfolding sign_in workspace_for new verified lookup
  authenticate api_url secret =
      if value secret "email" == "" || value secret "password" == ""
      then fail (text_error "credentials secret must contain 'email' and 'password' keys")
      else do
        token ←
            wrap_error "failed to sign in"
              (sign_in E api_url (value secret "email") (value secret "password"))
        workspace_id ← workspace_for api_url token secret
        verified (new (record { base_url = api_url; token = token; workspace_id = workspace_id }))

  -- The direct client reads the Secret as the client of the reconcilers would.
  unfoldable pub authenticate_from_secret : String → String → String → Run S DatabasusClient
  unfolding authenticate
  authenticate_from_secret api_url namespace secret_name =
      Plain.◌>>=◌ (reading E.open_direct_client) λ opened.
        handle_some opened
          (λ e. fail (text_error ("failed to create direct client: " <> e.message)))
          (Plain.◌>>=◌ (fetch_secret E (record { namespace = namespace; name = secret_name }))
            λ got.
              handle_got got
                (λ e. fail (
                  text_error (
                    "failed to read credentials secret "
                    <> (namespace <> ("/" <> (secret_name <> (": " <> e.message)))))))
                (authenticate api_url))
