-- ===== src/Client/Auth.antt =====
-- internal/client/auth.go: signing in, and the choice of a workspace.
pub mod Choice
use databasus_operator.Prelude.{
  String, ◌<>◌, ◌==◌, not, none, some, nat_eq, if◌then◌else◌, List, [], ◌∷◌,
}
use databasus_operator.Prelude.Text.{decimal, quote}
use databasus_operator.Wire.Auth.{
  SignInRequest, SignInResponse, WorkspaceResponse, ListWorkspacesResponse, encode_sign_in_request,
  decode_sign_in_response, decode_list_workspaces_response,
}
use databasus_operator.Effects.{Env, Run, Res, ok, err, text_error, pure}
use databasus_operator.Effects.Fallible.{◌>>=◌, wrap_error}
use databasus_operator.Client.Request.{DatabasusClient, Reply, do_request, unmarshal}

-- `status` and the raw body, as `SignIn` and `ResolveWorkspace` report a refusal.
abbrev pub refused : {A : Type 0} → String → Reply → Res A
refused what reply = err (
    text_error
      (what <> (" failed (status " <> (decimal reply.status <> ("): " <> reply.body.text)))))

module _ {S : Type 0} (E : Env S) where
  abbrev pub token_of : Res SignInResponse → Res String
  token_of (ok resp) = ok resp.token
  token_of (err e) = err e

  unfoldable pub sign_in : String → String → String → Run S String
  unfolding do_request
  sign_in base_url email password = do
    let c : DatabasusClient = record { base_url = base_url; token = ""; workspace_id = "" }
    let request : SignInRequest = record { email = email; password = password }
    reply ←
        wrap_error "sign in request failed"
          (do_request E c "POST" "/api/v1/users/signin" (some (encode_sign_in_request request)))
    pure (
        if not (nat_eq reply.status 200)
        then refused "sign in" reply
        else token_of
            (unmarshal E "failed to parse sign in response" decode_sign_in_response reply.body))

-- The loop over the workspaces.
unfoldable pub find_workspace : String → List WorkspaceResponse → Res String
unfolding quote
find_workspace name [] = err (text_error ("workspace " <> (quote name <> " not found")))
find_workspace name (ws ∷ rest) = if ws.name == name then ok ws.id else find_workspace name rest

-- What is chosen from the workspaces that the API lists.
unfoldable pub choose_workspace : String → List WorkspaceResponse → Res String
unfolding find_workspace
choose_workspace name [] = err (text_error "no workspaces found for this user")
choose_workspace name (ws ∷ rest) = if name == "" then ok ws.id else find_workspace name (ws ∷ rest)

abbrev pub chosen : String → Res ListWorkspacesResponse → Res String
chosen name (ok resp) = choose_workspace name resp.workspaces
chosen name (err e) = err e

module _ {S : Type 0} (E : Env S) (c : DatabasusClient) where
  unfoldable pub resolve_workspace : String → Run S String
  unfolding do_request
  resolve_workspace workspace_name = do
    reply ←
        wrap_error "list workspaces request failed" (do_request E c "GET" "/api/v1/workspaces" none)
    pure (
        if not (nat_eq reply.status 200)
        then refused "list workspaces" reply
        else chosen workspace_name (
            unmarshal E "failed to parse workspaces response" decode_list_workspaces_response
              reply.body))
