-- ===== src/Startup/Main/Serves.antt =====
-- cmd/main.go: `main` where nothing goes wrong.
use databasus_operator.Prelude.{String, ◌≡◌, none, List, [], ◌∷◌, refl}
use databasus_operator.Effects.{ok, Event, World, Env, M, pure, reading, handle_some, handle}
use databasus_operator.Effects.Plain.{◌>>=◌}
use databasus_operator.Client.Request.{DatabasusClient}
use databasus_operator.Startup.{settings, authenticate_from_secret}
use databasus_operator.Startup.Options.{Flags, manager_options}
use databasus_operator.Startup.Main.{
  Call, new_manager, start, Exit, exit_0, Runtime, perform, storage_setup_with_manager,
  notifier_setup_with_manager, database_backup_setup_with_manager, serve, authenticate_and_serve,
  main,
}
use databasus_operator.Effects.Leads.{Leads}
use databasus_operator.Startup.Main.Perform.{Leads-perform}
use databasus_operator.Startup.Main.Started.{ready_calls}

module _ {S : Type 0} (E : Env S) (R : Runtime S) where
  -- A call of the manager that gives no error.
  perform_fine :
      (call : Call) (done : List Call) (next : List Call → M S Exit) (w : World S)
      → (R call w.state).0 ≡ none
      → perform R call done next w ≡ next (call ∷ done) (record w { state = (R call w.state).1 })
  unfolding perform ◌>>=◌ reading handle_some
  perform_fine call done next w e = rw e refl

  Leads-fine :
      (P : Exit → List Event → Type 0) (log : List Event)
      → ((call : Call) (x : S) → (R call x).0 ≡ none)
      → (call : Call) (done : List Call) (next : List Call → M S Exit)
      → Leads P log (next (call ∷ done))
      → Leads P log (perform R call done next)
  Leads-fine P log fine call done next k =
      Leads-perform R P log call done next (λ x e. absurd (e (fine call x))) (λ x e. k)

  serve-Serves :
      (c : DatabasusClient) (flags : Flags) (log : List Event)
      → ((call : Call) (x : S) → (R call x).0 ≡ none)
      → Leads
          (λ e _. e ≡ exit_0 (start ∷ ready_calls flags c))
          log
          (serve R c (new_manager (manager_options flags) ∷ []))
  unfolding serve storage_setup_with_manager notifier_setup_with_manager
      database_backup_setup_with_manager pure
  serve-Serves c flags log fine =
      search (Leads-fine (λ e _. e ≡ exit_0 (start ∷ ready_calls flags c)) log fine) depth 12

  -- Where no call of the manager gives an error, and `authenticateFromSecret` hands out a client
  -- for the settings of the environment, `main` sets up the three controllers with this client
  -- and the two probes, starts the manager, and returns.
  pub main-Serves :
      (flags : Flags) (env : List (String × String)) (c : DatabasusClient) (w : World S)
      → ((call : Call) (x : S) → (R call x).0 ≡ none)
      → (authenticate_from_secret E
          (settings env).api_url
          (settings env).secret_namespace
          (settings env).secret_name
          (record w { state = (R (new_manager (manager_options flags)) w.state).1 })).0
        ≡ ok c
      → (main E R flags env w).0 ≡ exit_0 (start ∷ ready_calls flags c)
  unfolding main authenticate_and_serve ◌>>=◌ handle
  main-Serves flags env c w fine h =
      let opened =
        perform_fine (new_manager (manager_options flags)) []
          (authenticate_and_serve E R (settings env)) w (fine _ _) in
      rw (opened, h) ((serve-Serves c flags _ fine).at _)
