-- ===== src/Startup/HandedOut.antt =====
-- Which client the operator starts with.
use databasus_operator.Prelude.{
  String, ◌<>◌, ◌==◌, ◌≡◌, refl, false, none, List, [], ◌∷◌, Bool-cases, Option-cases, inl, inr,
  arith,
}
use databasus_operator.Api.Meta.{Secret, NamespacedName}
use databasus_operator.Effects.{
  Error, Res, ok, err, Event, http, updated, status_updated, Transport, no_response, broken_body,
  response, World, Env, fetch_secret, KubeError, Got, found, get_error, handle_got, fail,
}
use databasus_operator.Effects.Plain.{mapped}
use databasus_operator.Effects.Plain
use databasus_operator.Effects.Fallible.{◌>>=◌}
use databasus_operator.Effects.Returns.{
  Returns, Returns-bind, Returns-handle_some, Returns-bind_run, Returns-if, Returns-fail,
}
use databasus_operator.Client.Request.{
  DatabasusClient, request_of, new, reply_of, healthy, health_check,
}
use databasus_operator.Client.Request.Gone.{do_request-sent, do_request-unsent}
use databasus_operator.Startup.{
  value, workspace_for, verified, authenticate, authenticate_from_secret,
}

-- The latest call is the health check of the client, and its answer was 200.
abbrev pub IsHealthy : DatabasusClient → List Event → Type 0
IsHealthy c [] = ⊥
IsHealthy c (http r (no_response e) ∷ old) = ⊥
IsHealthy c (http r (broken_body status e) ∷ old) = ⊥
IsHealthy c (http r (response status body) ∷ old) =
    (r ≡ request_of c "GET" "/api/v1/system/health" none) × (status ≡ 200)
IsHealthy c (updated o r ∷ old) = ⊥
IsHealthy c (status_updated o r ∷ old) = ⊥

-- No client, or one that talks to the API at the URL, in the workspace of the Secret if it names
-- one, and whose health check has just succeeded.
pub data HandedOut (api_url : String) (secret : Secret)
    : Res DatabasusClient → List Event → Type 0 where
  refused : (e : Error) (log : List Event) → HandedOut api_url secret (err e) log
  handed :
      {c : DatabasusClient} {log : List Event}
      → c.base_url ≡ api_url
      → ((value secret "workspaceId" == "") ≡ false → c.workspace_id ≡ value secret "workspaceId")
      → IsHealthy c log
      → HandedOut api_url secret (ok c) log

healthy-IsHealthy :
    (c : DatabasusClient) (t : Transport) (old : List Event)
    → healthy (reply_of t) ≡ none
    → IsHealthy c (http (request_of c "GET" "/api/v1/system/health" none) t ∷ old)
healthy-IsHealthy c (no_response e) old h = cc
healthy-IsHealthy c (broken_body status e) old h = cc
healthy-IsHealthy c (response status body) old h = (refl, ground arith)

module _ {S : Type 0} (E : Env S) where
  health_check-IsHealthy :
      (c : DatabasusClient) (w : World S)
      → (health_check E c w).0 ≡ none
      → IsHealthy c (health_check E c w).1.log
  unfolding health_check mapped
  health_check-IsHealthy c w h =
      elim (Option-cases (E.url_error (c.base_url <> "/api/v1/system/health"))) [
        | inl e ↦
            let same = do_request-sent E c "GET" "/api/v1/system/health" none w e in
            rw same (healthy-IsHealthy c _ _ (rw same at h))
        | inr (m, e) ↦ cc (rw (do_request-unsent E c "GET" "/api/v1/system/health" none w e) at h)
      ]

  module _ (api_url : String) (secret : Secret) where
    verified-HandedOut :
        (token workspace_id : String)
        → ((value secret "workspaceId" == "") ≡ false → workspace_id ≡ value secret "workspaceId")
        → Returns (HandedOut api_url secret) (
            verified E
              (new (record { base_url = api_url; token = token; workspace_id = workspace_id })))
    unfolding verified mapped new
    verified-HandedOut token workspace_id given = record {
      at = λ w.
          let c : DatabasusClient = record {
            base_url = api_url;
            token = token;
            workspace_id = workspace_id;
          } in
          elim (Option-cases (health_check E c w).0) [
            | inl fine ↦ rw fine (handed refl given (health_check-IsHealthy c w fine))
            | inr (e, bad) ↦ rw bad (refused _ _)
          ];
    }

    workspace-HandedOut :
        (token : String)
        → Returns (HandedOut api_url secret) (
            workspace_for E api_url token secret >>= λ id.
            verified E (new (record { base_url = api_url; token = token; workspace_id = id })))
    workspace-HandedOut token = elim (Bool-cases (value secret "workspaceId" == "")) [
      | inl missing ↦
          Returns-bind_run _ _ refused
            (λ id. verified-HandedOut token id (λ there. cc (missing, there)))
      | inr there ↦ record {
        at = λ w.
            unfold workspace_for ◌>>=◌ in
            rw there ((verified-HandedOut token (value secret "workspaceId") (λ h. refl)).at w);
      }
    ]

    authenticate-HandedOut : Returns (HandedOut api_url secret) (authenticate E api_url secret)
    unfolding authenticate
    authenticate-HandedOut =
        Returns-if _ _ _ (Returns-fail _ refused) (Returns-bind_run _ _ refused workspace-HandedOut)

-- No client, or one for the Secret that was read under the key.
pub data IsSetUp {S : Type 0} (E : Env S) (api_url : String) (key : NamespacedName)
    : Res DatabasusClient → List Event → Type 0 where
  not_set_up : (e : Error) (log : List Event) → IsSetUp E api_url key (err e) log
  set_up :
      (s : S) {secret : Secret} {r : Res DatabasusClient} {log : List Event}
      → (E.read_secret key s).0 ≡ found secret
      → HandedOut api_url secret r log
      → IsSetUp E api_url key r log

module _ {S : Type 0} (E : Env S) (api_url namespace secret_name : String) where
  abbrev key : NamespacedName
  key = record { namespace = namespace; name = secret_name }

  read-IsSetUp :
      (message : KubeError → Error) (s : S) (got : Got Secret)
      → (E.read_secret key s).0 ≡ got
      → Returns
          (IsSetUp E api_url key)
          (handle_got got (λ e. fail (message e)) (authenticate E api_url))
  unfolding handle_got
  read-IsSetUp message s (get_error e) h = Returns-fail _ not_set_up
  read-IsSetUp message s (found secret) h = record {
    at = λ w. set_up s h ((authenticate-HandedOut E api_url secret).at w);
  }

  fetch-IsSetUp :
      (message : KubeError → Error)
      → Returns (IsSetUp E api_url key) (
          Plain.◌>>=◌
            (fetch_secret E key)
            λ got. handle_got got (λ e. fail (message e)) (authenticate E api_url))
  unfolding Plain.◌>>=◌
  fetch-IsSetUp message = record {
    at = λ w.
        (read-IsSetUp message w.state (E.read_secret key w.state).0 refl).at
          (record w { state = (E.read_secret key w.state).1 });
  }

  setup-Returns :
      Returns (IsSetUp E api_url key) (authenticate_from_secret E api_url namespace secret_name)
  unfolding authenticate_from_secret
  setup-Returns =
      Returns-bind _ _
        λ opened. Returns-handle_some opened _ _ (λ e. Returns-fail _ not_set_up) (fetch-IsSetUp _)

  -- Where `authenticateFromSecret` hands out a client, it talks to the API at the given URL, in the
  -- workspace that the Secret names by its identifier, if it does, and the latest call was its
  -- health check, with the token of the client, which was answered by 200. The Secret is what a
  -- read of the given name in the given namespace gave.
  pub authenticate_from_secret-IsSetUp :
      (w : World S)
      → IsSetUp E api_url key
          (authenticate_from_secret E api_url namespace secret_name w).0
          (authenticate_from_secret E api_url namespace secret_name w).1.log
  authenticate_from_secret-IsSetUp = setup-Returns.at
