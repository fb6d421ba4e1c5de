-- ===== src/System/Origin.antt =====
-- cmd/main.go and the reconcilers: where the requests of the whole process go.
use databasus_operator.Prelude.{String, ◌<>◌, ◌≡◌, refl, sym, ap, ◌∙◌, Option, List, [], ◌∷◌}
use databasus_operator.Wire.Json.{Json}
use databasus_operator.Api.Meta.{NamespacedName, Secret}
use databasus_operator.Effects.{Event, http, updated, status_updated, Transport, ok, World, Env, M}
use databasus_operator.Effects.Logs.{Logs, Adds, Adds-mono, Adds-trans, log_rules}
use databasus_operator.Client.Request.{DatabasusClient, new, request_of, do_request, health_check}
use databasus_operator.Client.Endpoints.{IsEndpoint, sign_in_path, workspaces_path, health_path}
use databasus_operator.Client.Auth.{sign_in, resolve_workspace}
use databasus_operator.Controller.Authority.{Authorized}
use databasus_operator.Startup.{
  Settings, settings, workspace_for, verified, authenticate, authenticate_from_secret,
}
use databasus_operator.Startup.HandedOut.{IsSetUp, set_up, handed}
use databasus_operator.Startup.Options.{Flags}
use databasus_operator.Startup.Main.{
  Call, new_manager, complete, add_healthz_check, add_readyz_check, start, Exit, exit_0, exit_1,
  Runtime, perform, storage_setup_with_manager, notifier_setup_with_manager,
  database_backup_setup_with_manager, serve, authenticate_and_serve, main,
}
use databasus_operator.Startup.Main.Started.{
  IsStarted, not_started, failed, ended, ready_calls, main-IsStarted, credentials_key,
}
use databasus_operator.System.Objects.{Reach}
use databasus_operator.System.Authority.{Reach-Authorized}

-- A request goes to a path of the API at the URL.
abbrev pub SentTo : String → Event → Type 0
SentTo url (http r t) = (path : String) × IsEndpoint path × (r.url ≡ url <> path)
SentTo url (updated o e) = Unit
SentTo url (status_updated o e) = Unit

-- The calls of the manager until the process ended.
abbrev pub calls_of : Exit → List Call
calls_of (exit_0 done) = done
calls_of (exit_1 done) = done

-- The base URL of the client that the latest controller was set up with.
abbrev url_in : List Call → String
url_in [] = ""
url_in (new_manager o ∷ done) = url_in done
url_in (complete k name c ∷ done) = c.base_url
url_in (add_healthz_check name ∷ done) = url_in done
url_in (add_readyz_check name ∷ done) = url_in done
url_in (start ∷ done) = url_in done

Authorized-SentTo : (c : DatabasusClient) (e : Event) → Authorized c e → SentTo c.base_url e
Authorized-SentTo c (http r t) (bearer, there) = there
Authorized-SentTo c (updated o e) h = tt
Authorized-SentTo c (status_updated o e) h = tt

request-SentTo :
    (c : DatabasusClient) (method path : String) (body : Option Json)
    → IsEndpoint path
    → (t : Transport) → SentTo c.base_url (http (request_of c method path body) t)
request-SentTo c method path body known t = (path, known, refl)

module _ {S : Type 0} (E : Env S) where
  do_request-SentTo :
      (c : DatabasusClient) (method path : String) (body : Option Json)
      → IsEndpoint path
      → Logs (SentTo c.base_url) (do_request E c method path body)
  unfolding do_request
  do_request-SentTo c method path body known =
      search (log_rules, request-SentTo c method path body known)

  sign_in-SentTo : (url email password : String) → Logs (SentTo url) (sign_in E url email password)
  unfolding sign_in
  sign_in-SentTo url email password = search (
    log_rules,
    (λ (body : Option Json).
        do_request-SentTo (record { base_url = url; token = ""; workspace_id = "" }) "POST"
          "/api/v1/users/signin" body sign_in_path),
  )

  resolve_workspace-SentTo :
      (c : DatabasusClient) (name : String) → Logs (SentTo c.base_url) (resolve_workspace E c name)
  unfolding resolve_workspace
  resolve_workspace-SentTo c name = search (log_rules, do_request-SentTo c, workspaces_path)

  verified-SentTo : (c : DatabasusClient) → Logs (SentTo c.base_url) (verified E c)
  unfolding verified health_check
  verified-SentTo c = search (log_rules, do_request-SentTo c, health_path)

  module _ (url : String) where
    workspace_for-SentTo :
        (token : String) (secret : Secret) → Logs (SentTo url) (workspace_for E url token secret)
    unfolding workspace_for new
    workspace_for-SentTo token secret = search (
      log_rules,
      resolve_workspace-SentTo (record { base_url = url; token = token; workspace_id = "" }),
    )

    authenticate-SentTo : (secret : Secret) → Logs (SentTo url) (authenticate E url secret)
    unfolding authenticate new
    authenticate-SentTo secret =
        search
          (
            log_rules,
            sign_in-SentTo,
            workspace_for-SentTo,
            (λ (token id : String).
                verified-SentTo (record { base_url = url; token = token; workspace_id = id })),
          )
          depth 10

    authenticate_from_secret-SentTo :
        (namespace name : String)
        → Logs (SentTo url) (authenticate_from_secret E url namespace name)
    unfolding authenticate_from_secret
    authenticate_from_secret-SentTo namespace name =
        search (log_rules, authenticate-SentTo) depth 10

module _ {S : Type 0} (E : Env S) (R : Runtime S) where
  perform-SentTo :
      (url : String) (call : Call) (done : List Call) (next : List Call → M S Exit)
      → ((done : List Call) → Logs (SentTo url) (next done))
      → Logs (SentTo url) (perform R call done next)
  unfolding perform
  perform-SentTo url call done next k = search (log_rules, k)

  serve-SentTo :
      (url : String) (c : DatabasusClient) (done : List Call) → Logs (SentTo url) (serve R c done)
  unfolding serve storage_setup_with_manager notifier_setup_with_manager
      database_backup_setup_with_manager
  serve-SentTo url c done = search (log_rules, perform-SentTo url) depth 12

  main-SentTo :
      (flags : Flags) (env : List (String × String))
      → Logs (SentTo (settings env).api_url) (main E R flags env)
  unfolding main authenticate_and_serve
  main-SentTo flags env =
      search
        (
          log_rules,
          perform-SentTo (settings env).api_url,
          serve-SentTo (settings env).api_url,
          authenticate_from_secret-SentTo E (settings env).api_url,
        )
        depth 12

  IsSetUp-base_url :
      (url : String) (key : NamespacedName) (c : DatabasusClient) (log : List Event)
      → IsSetUp E url key (ok c) log
      → c.base_url ≡ url
  IsSetUp-base_url url key c log (set_up s found (handed same given healthy)) = same

  -- The client of the reconcilers talks to the API of the settings.
  IsStarted-base_url :
      (flags : Flags) (s : Settings) (e : Exit) (log : List Event) (c : DatabasusClient)
      → IsStarted E R flags s e log
      → calls_of e ≡ start ∷ ready_calls flags c
      → c.base_url ≡ s.api_url
  IsStarted-base_url flags s _ log c (not_started done _ never) same = absurd (rw same at never)
  IsStarted-base_url flags s _ log c (failed {c = d} x h bad) same =
      sym (ap url_in same) ∙ IsSetUp-base_url s.api_url (credentials_key s) d log h
  IsStarted-base_url flags s _ log c (ended {c = d} x h fine) same =
      sym (ap url_in same) ∙ IsSetUp-base_url s.api_url (credentials_key s) d log h

  -- Where `main` comes to the start of the manager, all requests of the process go to the URL of
  -- the settings, followed by one of the twelve paths of the API that the operator knows: those
  -- that `main` sends before, and those of any number of turns of the reconcilers with the client
  -- that `main` gives them, whatever the outside answers.
  pub Reach-SentTo :
      (flags : Flags) (env : List (String × String)) (c : DatabasusClient) (w u v : World S)
      → calls_of (main E R flags env w).0 ≡ start ∷ ready_calls flags c
      → u.log ≡ (main E R flags env w).1.log
      → Reach E c u v
      → Adds (SentTo (settings env).api_url) w.log v.log
  Reach-SentTo flags env c w u v started same r =
      let url =
        IsStarted-base_url flags (settings env) _ _ c (main-IsStarted E R flags env w) started in
      Adds-trans ((main-SentTo flags env).at w)
        (rw (sym same, sym url) (Adds-mono (Authorized-SentTo c) (Reach-Authorized E c r)))
