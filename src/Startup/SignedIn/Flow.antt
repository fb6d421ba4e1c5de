-- ===== src/Startup/SignedIn/Flow.antt =====
-- cmd/main.go: `authenticateFromSecret` after it read the Secret, call by call.
use databasus_operator.Prelude.{
  String, ◌<>◌, ◌==◌, ◌||◌, ◌≡◌, ap, ◌∙◌, true, false, none, inl, inr, List, ◌∷◌, Bool-cases,
  Option-cases,
}
use databasus_operator.Api.Meta.{Secret}
use databasus_operator.Effects.{Error, Res, ok, err, Event, http, Transport, World, Env, pure, fail}
use databasus_operator.Effects.Fallible.{◌>>=◌, wrap_error}
use databasus_operator.Effects.Leads.{Leads, Leads-run, mapped_step, wrap_error-ok}
use databasus_operator.Client.Request.{
  DatabasusClient, request_of, new, reply_of, healthy, health_check,
}
use databasus_operator.Client.Request.Gone.{sent, do_request-sent, do_request-unsent}
use databasus_operator.Client.Auth.{sign_in, resolve_workspace}
use databasus_operator.Client.Asked.{
  Grants, Offers, signing_in, sign_in-Grants, resolve_workspace-Offers,
}
use databasus_operator.Startup.{value, workspace_for, verified, checked, authenticate}
use databasus_operator.Startup.SignedIn.{
  client_of, IsFine, healthy-IsFine, IsSignedIn, refused, in_named, in_chosen,
}

module _ {S : Type 0} (E : Env S) where
  -- The last step, by the answer to the health check.
  verified-Leads :
      (P : Res DatabasusClient → List Event → Type 0) (log : List Event) (c : DatabasusClient)
      → ((e : Error) (after : List Event) → P (err e) after)
      → ((u : Transport)
          → IsFine u
          → P (ok c) (http (request_of c "GET" "/api/v1/system/health" none) u ∷ log))
      → Leads P log (verified E c)
  unfolding verified health_check
  verified-Leads P log c bad good = record {
    at = λ x.
        let w : World S = record { state = x; log = log } in
        let path : String = "/api/v1/system/health" in
        elim (Option-cases (E.url_error (c.base_url <> path))) [
          | inl e ↦
              let u = (sent E c "GET" path none w).0 in
              rw
                (mapped_step (checked E c) _ w _ _
                  (mapped_step healthy _ w _ _ (do_request-sent E c "GET" path none w e)))
                (elim (Option-cases (healthy (reply_of u))) [
                  | inl fine ↦ rw fine (good u (healthy-IsFine u fine))
                  | inr (y, unfit) ↦ rw unfit (bad _ _)
                ])
          | inr (m, e) ↦
              rw
                (mapped_step (checked E c) _ w _ _
                  (mapped_step healthy _ w _ _ (do_request-unsent E c "GET" path none w e)))
                (bad _ _)
        ];
  }

module _ {S : Type 0} (E : Env S) (api_url : String) (secret : Secret) (old : List Event)
    (given : (value secret "email" == "" || value secret "password" == "") ≡ false) where
  -- The calls after the sign-in.
  abbrev signed : Transport → List Event
  signed t = http (signing_in api_url (value secret "email") (value secret "password")) t ∷ old

  -- The list of the workspaces was requested, and gives the identifier.
  abbrev Listed : String → List Event → String → List Event → Type 0
  Listed token before id log =
      (l : Transport) × Offers (value secret "workspaceName") id l
      × (log
          ≡ http (request_of (client_of api_url token "") "GET" "/api/v1/workspaces" none) l
            ∷ before)

  granted :
      (w : World S) (token : String)
      → w.log ≡ old
      → (wrap_error "failed to sign in"
          (sign_in E api_url (value secret "email") (value secret "password"))
          w).0
        ≡ ok token
      → (t : Transport) × Grants token t
        × ((wrap_error "failed to sign in"
              (sign_in E api_url (value secret "email") (value secret "password"))
              w).1.log
            ≡ signed t)
  granted w token start h =
      let (fine, same) = wrap_error-ok "failed to sign in" _ w token h in
      let (t, log, g) = sign_in-Grants E api_url _ _ token w fine in
      (
        t,
        g,
        ap (λ (v : World S). v.log) same
            ∙ log
            ∙ ap
                (λ l.
                  http (signing_in api_url (value secret "email") (value secret "password")) t ∷ l)
                start,
      )

  listed :
      (token : String) (before : List Event) (w : World S) (id : String)
      → w.log ≡ before
      → (value secret "workspaceId" == "") ≡ true
      → (workspace_for E api_url token secret w).0 ≡ ok id
      → Listed token before id (workspace_for E api_url token secret w).1.log
  unfolding workspace_for new
  listed token before w id start missing h =
      let (fine, same) =
        wrap_error-ok "failed to resolve workspace"
          (resolve_workspace E (client_of api_url token "") (value secret "workspaceName")) w id
          (rw missing at h) in
      let (l, log, offered) =
        resolve_workspace-Offers E (client_of api_url token "") (value secret "workspaceName") id w
          fine in
      (
        l,
        offered,
        rw missing (
            ap (λ (v : World S). v.log) same
            ∙ log
            ∙ ap
                (λ x.
                  http (request_of (client_of api_url token "") "GET" "/api/v1/workspaces" none) l
                  ∷ x)
                start),
      )

  -- After the sign-in.
  workspace-IsSignedIn :
      (token : String) (t : Transport)
      → Grants token t
      → Leads
          (IsSignedIn api_url secret old)
          (signed t)
          (workspace_for E api_url token secret >>= λ id. verified E (client_of api_url token id))
  unfolding workspace_for new pure
  workspace-IsSignedIn token t g = elim (Bool-cases (value secret "workspaceId" == "")) [
    | inr named ↦
        Leads-run (IsSignedIn api_url secret old) (signed t)
          (λ id log. (id ≡ value secret "workspaceId") × (log ≡ signed t)) _ _
          (λ w id start h. (cc (rw named at h), rw named start)) refused
          λ id log (same, is).
            rw (same, is)
              (verified-Leads E (IsSignedIn api_url secret old) (signed t) _ refused
                λ u fine. in_named t u given g named fine)
    | inl missing ↦
        Leads-run (IsSignedIn api_url secret old) (signed t) (Listed token (signed t)) _ _
          (λ w id start h. listed token (signed t) w id start missing h) refused
          λ id log (l, offered, is). rw is (
            verified-Leads E (IsSignedIn api_url secret old) _ _ refused
              λ u fine. in_chosen t l u given g missing offered fine)
  ]

  authenticate-Leads : Leads (IsSignedIn api_url secret old) old (authenticate E api_url secret)
  unfolding authenticate new
  authenticate-Leads = rw given (
      Leads-run (IsSignedIn api_url secret old) old
        (λ token log. (t : Transport) × Grants token t × (log ≡ signed t)) _ _
        (λ w token start h. granted w token start h) refused
        λ token log (t, g, is). rw is (workspace-IsSignedIn token t g))

module _ {S : Type 0} (E : Env S) where
  -- Where the credentials of the Secret give a client, the calls of `authenticateFromSecret` after
  -- it read the Secret are these and no others: a sign-in with the email and the password of the
  -- Secret, neither of which is empty, whose answer, 200, gives the token of the client; if the
  -- Secret names no workspace by its identifier, a list of the workspaces, requested with this
  -- token, whose answer, 200, offers the workspace of the client for the name in the Secret, or for
  -- no name; and the health check of the client, with its token, which is answered by 200. If the
  -- Secret names a workspace by its identifier, it is that of the client. The client talks to the
  -- API at the given URL.
  pub authenticate-IsSignedIn :
      (api_url : String) (secret : Secret) (w : World S)
      → IsSignedIn api_url secret w.log
          (authenticate E api_url secret w).0
          (authenticate E api_url secret w).1.log
  unfolding authenticate fail
  authenticate-IsSignedIn api_url secret w =
      elim (Bool-cases (value secret "email" == "" || value secret "password" == "")) [
        | inl missing ↦ rw missing (refused _ _)
        | inr given ↦ (authenticate-Leads E api_url secret w.log given).at w.state
      ]
