-- ===== src/Client/Asked.antt =====
-- internal/client/auth.go: a request whose error is wrapped, and what is read from its answer.
use databasus_operator.Prelude.{
  ℕ, String, ◌<>◌, ◌≡◌, refl, ap, none, some, Option, inl, inr, ◌∷◌, ◌∙◌, Option-cases, Bool-cases,
  not, nat_eq, nat_eq_iff, if◌then◌else◌,
}
use databasus_operator.Wire.Json.{Json, unmarshal_value}
use databasus_operator.Wire.Auth.{
  SignInResponse, decode_sign_in_response, ListWorkspacesResponse, decode_list_workspaces_response,
  encode_sign_in_request,
}
use databasus_operator.Effects.{
  Transport, no_response, broken_body, response, Body, Res, ok, HttpRequest, http, World, Env, pure,
  handle, fail, M,
}
use databasus_operator.Effects.Plain
use databasus_operator.Effects.Plain.{mapped}
use databasus_operator.Effects.Fallible.{◌>>=◌, wrap_error, wrap_res}
use databasus_operator.Client.Request.{
  DatabasusClient, do_request, request_of, reply_of, Reply, unmarshal,
}
use databasus_operator.Client.Request.Gone.{sent, do_request-sent, do_request-unsent}
use databasus_operator.Client.Auth.Choice.{IsChosen, choose_workspace_iff}
use databasus_operator.Client.Auth.{sign_in, token_of, refused, resolve_workspace, chosen}

module _ {S A : Type 0} (prefix : String) (f : Reply → Res A) where
  abbrev reading : Transport → M S (Res A)
  reading t = handle (wrap_res prefix (reply_of t)) fail (λ reply. pure (f reply))

  reading-ok :
      (t : Transport) (v : World S) (a : A)
      → (reading t v).0 ≡ ok a
      → (status : ℕ) × (body : Body) × (t ≡ response status body)
        × ((reading t v).1 ≡ v)
        × (f (record { status = status; body = body }) ≡ ok a)
  unfolding handle fail pure
  reading-ok (no_response e) v a h = cc
  reading-ok (broken_body status e) v a h = cc
  reading-ok (response status body) v a h = (status, body, refl, refl, h)

module _ {S A : Type 0} (E : Env S) (c : DatabasusClient) (prefix : String)
    (f : Reply → Res A) where
  -- Where a value is read, the request was sent, and there was an answer from which it is read.
  pub asked :
      (method path : String) (body : Option Json) (w : World S) (a : A)
      → ((wrap_error prefix (do_request E c method path body) >>= λ reply. pure (f reply)) w).0
        ≡ ok a
      → (status : ℕ) × (answer : Body) × (((wrap_error prefix (do_request E c method path body)
              >>= λ reply. pure (f reply))
            w).1.log
          ≡ http (request_of c method path body) (response status answer) ∷ w.log)
        × (f (record { status = status; body = answer }) ≡ ok a)
  unfolding ◌>>=◌ wrap_error mapped Plain.◌>>=◌
  asked method path body w a h = elim (Option-cases (E.url_error (c.base_url <> path))) [
    | inl e ↦
        let same = do_request-sent E c method path body w e in
        let (status, answer, is, unchanged, read) =
          reading-ok prefix f (sent E c method path body w).0 _ a (rw same at h) in
        (
          status,
          answer,
          rw same (
              ap (λ (v : World S). v.log) unchanged
              ∙ ap (λ t. http (request_of c method path body) t ∷ w.log) is),
          read,
        )
    | inr (m, e) ↦ cc (rw (do_request-unsent E c method path body w e) at h)
  ]

-- The request of a sign-in: it carries no token yet.
abbrev pub signing_in : String → String → String → HttpRequest
signing_in base_url email password =
    request_of (record { base_url = base_url; token = ""; workspace_id = "" }) "POST"
      "/api/v1/users/signin"
      (some (encode_sign_in_request (record { email = email; password = password })))

-- The answer 200 with the token.
pub data Grants (token : String) : Transport → Type 0 where
  grants :
      {resp : SignInResponse} (body : Body)
      → unmarshal_value decode_sign_in_response body.json ≡ some resp
      → resp.token ≡ token
      → Grants token (response 200 body)

-- The answer 200 with a list of workspaces, from which one is chosen for the name.
pub data Offers (name id : String) : Transport → Type 0 where
  offers :
      {resp : ListWorkspacesResponse} (body : Body)
      → unmarshal_value decode_list_workspaces_response body.json ≡ some resp
      → IsChosen name id resp.workspaces
      → Offers name id (response 200 body)

module _ {S : Type 0} (E : Env S) where
  token-Grants :
      (prefix token : String) (status : ℕ) (body : Body)
      → (if not (nat_eq status 200)
          then refused "sign in" (record { status = status; body = body })
          else token_of E (unmarshal E prefix decode_sign_in_response body))
        ≡ ok token
      → Grants token (response status body)
  token-Grants prefix token status body h = elim (Bool-cases (nat_eq status 200)) [
    | inr bad ↦ cc (rw bad at h)
    | inl fine ↦ elim (Option-cases (unmarshal_value decode_sign_in_response body.json)) [
      | inl none_read ↦ cc (rw (fine, unmarshal, none_read) at h)
      | inr (resp, read) ↦
          let same : resp.token ≡ token = cc (rw (fine, unmarshal, read) at h) in
          rw ((nat_eq_iff status 200).0 fine) (grants body read same)
    ]
  ]

  chosen-Offers :
      (prefix name id : String) (status : ℕ) (body : Body)
      → (if not (nat_eq status 200)
          then refused "list workspaces" (record { status = status; body = body })
          else chosen name (unmarshal E prefix decode_list_workspaces_response body))
        ≡ ok id
      → Offers name id (response status body)
  chosen-Offers prefix name id status body h = elim (Bool-cases (nat_eq status 200)) [
    | inr bad ↦ cc (rw bad at h)
    | inl fine ↦ elim (Option-cases (unmarshal_value decode_list_workspaces_response body.json)) [
      | inl none_read ↦ cc (rw (fine, unmarshal, none_read) at h)
      | inr (resp, read) ↦ rw ((nat_eq_iff status 200).0 fine) (
          offers body read
            ((choose_workspace_iff name id resp.workspaces).0 (rw (fine, unmarshal, read) at h)))
    ]
  ]

  -- A sign-in that gives a token has sent the credentials, and the answer has the token.
  pub sign_in-Grants :
      (base_url email password token : String) (w : World S)
      → (sign_in E base_url email password w).0 ≡ ok token
      → (t : Transport) × ((sign_in E base_url email password w).1.log
          ≡ http (signing_in base_url email password) t ∷ w.log)
        × Grants token t
  unfolding sign_in
  sign_in-Grants base_url email password token w h =
      let (status, answer, log, read) =
        asked E (record { base_url = base_url; token = ""; workspace_id = "" })
          "sign in request failed" _ "POST" "/api/v1/users/signin" _ w token h in
      (response status answer, log, token-Grants _ token status answer read)

  -- A workspace that is resolved was chosen from the list in the answer.
  pub resolve_workspace-Offers :
      (c : DatabasusClient) (name id : String) (w : World S)
      → (resolve_workspace E c name w).0 ≡ ok id
      → (t : Transport) × ((resolve_workspace E c name w).1.log
          ≡ http (request_of c "GET" "/api/v1/workspaces" none) t ∷ w.log)
        × Offers name id t
  unfolding resolve_workspace
  resolve_workspace-Offers c name id w h =
      let (status, answer, log, read) =
        asked E c "list workspaces request failed" _ "GET" "/api/v1/workspaces" none w id h in
      (response status answer, log, chosen-Offers _ name id status answer read)
