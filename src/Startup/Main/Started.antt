-- ===== src/Startup/Main/Started.antt =====
-- cmd/main.go: when `main` starts the manager, and with what.
use databasus_operator.Prelude.{String, ◌≡◌, none, List, [], ◌∷◌}
use databasus_operator.Api.Meta.{NamespacedName}
use databasus_operator.Effects.{Res, ok, err, Event, World, Env, M, pure, handle}
use databasus_operator.Effects.Plain.{◌>>=◌}
use databasus_operator.Client.Request.{DatabasusClient}
use databasus_operator.Startup.{settings, Settings, authenticate_from_secret}
use databasus_operator.Startup.HandedOut.{IsSetUp, authenticate_from_secret-IsSetUp}
use databasus_operator.Startup.Options.{Flags, manager_options}
use databasus_operator.Effects.Leads.{Leads, Leads-pure}
use databasus_operator.Startup.Main.Perform.{Leads-perform}
use databasus_operator.Startup.Main.{
  Kind, Call, new_manager, complete, add_healthz_check, add_readyz_check, start, Exit, exit_1,
  exit_0, Runtime, perform, storage_setup_with_manager, notifier_setup_with_manager,
  database_backup_setup_with_manager, serve, authenticate_and_serve, main,
}

-- The manager is not started by the calls.
abbrev pub NeverStarts : List Call → Type 0
NeverStarts [] = Unit
NeverStarts (new_manager o ∷ done) = NeverStarts done
NeverStarts (complete k name c ∷ done) = NeverStarts done
NeverStarts (add_healthz_check name ∷ done) = NeverStarts done
NeverStarts (add_readyz_check name ∷ done) = NeverStarts done
NeverStarts (start ∷ done) = ⊥

-- A controller for each kind of objects, all with the client, and the two probes; the latest
-- first.
abbrev pub ready_calls : Flags → DatabasusClient → List Call
ready_calls flags c =
    add_readyz_check "readyz"
    ∷ add_healthz_check "healthz"
    ∷ complete Kind.database_backup "databasebackup" c
    ∷ complete Kind.notifier "notifier" c
    ∷ complete Kind.storage "storage" c
    ∷ new_manager (manager_options flags)
    ∷ []

abbrev pub credentials_key : Settings → NamespacedName
credentials_key s = record { namespace = s.secret_namespace; name = s.secret_name }

-- The manager is not started, and the process fails; or it is started as the last call, filled,
-- with a client that was handed out; the process fails exactly if that call does.
pub data IsStarted {S : Type 0} (E : Env S) (R : Runtime S) (flags : Flags) (s : Settings)
    : Exit → List Event → Type 0 where
  not_started :
      (done : List Call) (log : List Event)
      → NeverStarts done
      → IsStarted E R flags s (exit_1 done) log
  failed :
      {c : DatabasusClient} {log : List Event} (x : S)
      → IsSetUp E s.api_url (credentials_key s) (ok c) log
      → ((R start x).0 ≡ none → ⊥)
      → IsStarted E R flags s (exit_1 (start ∷ ready_calls flags c)) log
  ended :
      {c : DatabasusClient} {log : List Event} (x : S)
      → IsSetUp E s.api_url (credentials_key s) (ok c) log
      → (R start x).0 ≡ none
      → IsStarted E R flags s (exit_0 (start ∷ ready_calls flags c)) log

module _ {S : Type 0} (E : Env S) (R : Runtime S) (flags : Flags) (s : Settings) where
  -- A call before the last one.
  Leads-step :
      (log : List Event) (call : Call) (done : List Call) (next : List Call → M S Exit)
      → NeverStarts (call ∷ done)
      → Leads (IsStarted E R flags s) log (next (call ∷ done))
      → Leads (IsStarted E R flags s) log (perform R call done next)
  Leads-step log call done next h k =
      Leads-perform R (IsStarted E R flags s) log call done next
        (λ x e. not_started (call ∷ done) log h) (λ x e. k)

  run-Leads :
      (c : DatabasusClient) (log : List Event)
      → IsSetUp E s.api_url (credentials_key s) (ok c) log
      → Leads
          (IsStarted E R flags s)
          log
          (perform R start (ready_calls flags c) λ done. pure (exit_0 done))
  run-Leads c log h =
      Leads-perform R (IsStarted E R flags s) log start (ready_calls flags c)
        (λ done. pure (exit_0 done)) (λ x e. failed x h e)
        (λ x e.
          Leads-pure (IsStarted E R flags s) log (exit_0 (start ∷ ready_calls flags c))
            (ended x h e))

  serve-Leads :
      (c : DatabasusClient) (log : List Event)
      → IsSetUp E s.api_url (credentials_key s) (ok c) log
      → Leads (IsStarted E R flags s) log (serve R c (new_manager (manager_options flags) ∷ []))
  unfolding serve storage_setup_with_manager notifier_setup_with_manager
      database_backup_setup_with_manager
  serve-Leads c log h = search (Leads-step, run-Leads, tt, h) depth 12

  authenticated-IsStarted :
      (r : Res DatabasusClient) (w : World S)
      → IsSetUp E s.api_url (credentials_key s) r w.log
      → let run =
          handle r
            (λ e. pure (exit_1 (new_manager (manager_options flags) ∷ [])))
            (λ c. serve R c (new_manager (manager_options flags) ∷ []))
            w in
        IsStarted E R flags s run.0 run.1.log
  unfolding handle pure
  authenticated-IsStarted (err e) w h = not_started _ _ tt
  authenticated-IsStarted (ok c) w h = (serve-Leads c w.log h).at w.state

  authenticate-IsStarted :
      (w : World S)
      → let run = authenticate_and_serve E R s (new_manager (manager_options flags) ∷ []) w in
        IsStarted E R flags s run.0 run.1.log
  unfolding authenticate_and_serve ◌>>=◌
  authenticate-IsStarted w =
      let key = credentials_key s in
      let run = authenticate_from_secret E s.api_url key.namespace key.name w in
      authenticated-IsStarted run.0 run.1
        (authenticate_from_secret-IsSetUp E s.api_url key.namespace key.name w)

module _ {S : Type 0} (E : Env S) (R : Runtime S) where
  -- `main` fails and does not start the manager; or it starts the manager as its last call, which
  -- was made with the options of the flags and has the three controllers, all with one client, and
  -- the two probes, and the client is one that `authenticateFromSecret` hands out for the settings
  -- of the environment. Then the process fails exactly if the call of `Start` gives an error.
  pub main-IsStarted :
      (flags : Flags) (env : List (String × String)) (w : World S)
      → IsStarted E R flags (settings env) (main E R flags env w).0 (main E R flags env w).1.log
  unfolding main
  main-IsStarted flags env w =
      (Leads-step E R flags (settings env) w.log (new_manager (manager_options flags)) []
          (authenticate_and_serve E R (settings env)) tt
          (record {
            at = λ x.
                authenticate-IsStarted E R flags (settings env) (record { state = x; log = w.log });
          })).at
        w.state
