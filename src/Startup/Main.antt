-- ===== src/Startup/Main.antt =====
-- cmd/main.go: `main`, from the parsed flags on, and the `SetupWithManager` of the three
-- reconcilers in internal/controller/*.go.
pub mod Perform
pub mod Started
pub mod Serves
use databasus_operator.Prelude.{String, ◌<>◌, Option, none, some, List, [], ◌∷◌}
use databasus_operator.Effects.{
  KubeError, Error, error_text, Env, M, pure, reading, handle, handle_some, Res,
}
use databasus_operator.Effects.Plain.{◌>>=◌}
use databasus_operator.Client.Request.{DatabasusClient}
use databasus_operator.Startup.{Settings, settings, authenticate_from_secret}
use databasus_operator.Startup.Options.{Flags, ManagerOptions, manager_options}

-- The reconcilers, by the kind of the objects that they are set up for.
pub data Kind : Type 0 where
  storage : Kind
  notifier : Kind
  database_backup : Kind

-- The calls of controller-runtime by which the manager is made, filled and run. `complete` is the
-- call of the builder with the object, the name, and the client in the reconciler.
pub data Call : Type 0 where
  new_manager : ManagerOptions → Call
  complete : Kind → String → DatabasusClient → Call
  add_healthz_check : String → Call
  add_readyz_check : String → Call
  start : Call

-- The end of the process: by `os.Exit(1)`, or by the return of `main`. The calls of the manager so
-- far, the latest one first, are there for statements about them.
pub data Exit : Type 0 where
  exit_1 : List Call → Exit
  exit_0 : List Call → Exit

-- Such a call gives an error or nil, and may change the state outside in any way.
abbrev pub Runtime : Type 0 → Type 0
Runtime S = Call → S → Option KubeError × S

module _ {S : Type 0} (R : Runtime S) where
  -- A call, and what follows unless it gives an error.
  unfoldable pub perform : Call → List Call → (List Call → M S Exit) → M S Exit
  perform call done next = do
    result ← reading (R call)
    handle_some result (λ e. pure (exit_1 (call ∷ done))) (next (call ∷ done))

  -- `SetupWithManager` of the three reconcilers.
  unfoldable pub storage_setup_with_manager :
      DatabasusClient → List Call → (List Call → M S Exit) → M S Exit
  unfolding perform
  storage_setup_with_manager c = perform (complete storage "storage" c)

  unfoldable pub notifier_setup_with_manager :
      DatabasusClient → List Call → (List Call → M S Exit) → M S Exit
  unfolding perform
  notifier_setup_with_manager c = perform (complete notifier "notifier" c)

  unfoldable pub database_backup_setup_with_manager :
      DatabasusClient → List Call → (List Call → M S Exit) → M S Exit
  unfolding perform
  database_backup_setup_with_manager c = perform (complete database_backup "databasebackup" c)

  -- From the set-up of the Storage controller to the end.
  unfoldable pub serve : DatabasusClient → List Call → M S Exit
  unfolding storage_setup_with_manager notifier_setup_with_manager
      database_backup_setup_with_manager
  serve c done = storage_setup_with_manager c done λ done.
      notifier_setup_with_manager c done λ done. database_backup_setup_with_manager c done λ done.
        perform (add_healthz_check "healthz") done λ done.
          perform (add_readyz_check "readyz") done
            λ done. perform start done λ done. pure (exit_0 done)

module _ {S : Type 0} (E : Env S) (R : Runtime S) where
  -- From "Read credentials from K8s Secret" to the end.
  unfoldable pub authenticate_and_serve : Settings → List Call → M S Exit
  unfolding serve
  authenticate_and_serve s done = do
    result ← authenticate_from_secret E s.api_url s.secret_namespace s.secret_name
    handle result (λ e. pure (exit_1 done)) (λ c. serve R c done)

  unfoldable pub main : Flags → List (String × String) → M S Exit
  unfolding authenticate_and_serve
  main flags env =
      perform R (new_manager (manager_options flags)) []
        λ done. authenticate_and_serve (settings env) done
