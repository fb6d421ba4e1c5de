-- ===== src/Startup/SignedIn.antt =====
-- cmd/main.go: the calls by which `authenticateFromSecret` comes to a client.
pub mod Flow
use databasus_operator.Prelude.{
  ℕ, String, ◌<>◌, ◌==◌, ◌||◌, ◌≡◌, refl, ap, ◌∙◌, true, false, none, some, Option, inl, inr, List,
  ◌∷◌, Bool-cases, Option-cases, nat_eq, nat_eq_iff, not, arith,
}
use databasus_operator.Api.Meta.{Secret}
use databasus_operator.Effects.{
  Error, Res, ok, err, Event, http, Transport, no_response, broken_body, response, Body, World, Env,
  pure, fail,
}
use databasus_operator.Effects.Plain.{mapped}
use databasus_operator.Effects.Fallible.{◌>>=◌, wrap_error}
use databasus_operator.Effects.Leads.{Leads, Leads-pure, Leads-run, mapped_step, wrap_error-ok}
use databasus_operator.Client.Request.{
  DatabasusClient, request_of, new, reply_of, healthy, health_check, do_request,
}
use databasus_operator.Client.Request.Gone.{sent, do_request-sent, do_request-unsent}
use databasus_operator.Client.Auth.{sign_in, resolve_workspace}
use databasus_operator.Client.Asked.{
  Grants, Offers, signing_in, sign_in-Grants, resolve_workspace-Offers,
}
use databasus_operator.Startup.{value, workspace_for, verified, checked, authenticate}

abbrev pub client_of : String → String → String → DatabasusClient
client_of api_url token workspace_id = record {
  base_url = api_url;
  token = token;
  workspace_id = workspace_id;
}

pub data IsFine : Transport → Type 0 where
  is_fine : (body : Body) → IsFine (response 200 body)

pub healthy-IsFine : (t : Transport) → healthy (reply_of t) ≡ none → IsFine t
healthy-IsFine (no_response e) h = cc
healthy-IsFine (broken_body status e) h = cc
healthy-IsFine (response status body) h = elim (Bool-cases (nat_eq status 200)) [
  | inl fine ↦ rw ((nat_eq_iff status 200).0 fine) (is_fine body)
  | inr bad ↦ cc (rw bad at h)
]

-- No client. Or one with the token that the API gave for the email and the password of the Secret,
-- neither empty, and the workspace that the Secret names by its identifier, or else the one that the
-- API lists, with this token, for the name in the Secret; whose health check was answered by 200.
-- Nothing else was called.
pub data IsSignedIn (api_url : String) (secret : Secret) (old : List Event)
    : Res DatabasusClient → List Event → Type 0 where
  refused : (e : Error) (log : List Event) → IsSignedIn api_url secret old (err e) log
  in_named :
      {token : String} (t u : Transport)
      → (value secret "email" == "" || value secret "password" == "") ≡ false
      → Grants token t
      → (value secret "workspaceId" == "") ≡ false
      → IsFine u
      → IsSignedIn api_url secret old (ok (client_of api_url token (value secret "workspaceId"))) (
          http
            (request_of
              (client_of api_url token (value secret "workspaceId"))
              "GET"
              "/api/v1/system/health"
              none)
            u
          ∷ http (signing_in api_url (value secret "email") (value secret "password")) t
          ∷ old)
  in_chosen :
      {token id : String} (t listed u : Transport)
      → (value secret "email" == "" || value secret "password" == "") ≡ false
      → Grants token t
      → (value secret "workspaceId" == "") ≡ true
      → Offers (value secret "workspaceName") id listed
      → IsFine u
      → IsSignedIn api_url secret old (ok (client_of api_url token id)) (
          http (request_of (client_of api_url token id) "GET" "/api/v1/system/health" none) u
          ∷ http (request_of (client_of api_url token "") "GET" "/api/v1/workspaces" none) listed
          ∷ http (signing_in api_url (value secret "email") (value secret "password")) t
          ∷ old)
