-- ===== src/Tests/Startup.antt =====
-- The start of the operator at concrete data.
use databasus_operator.Prelude.{String, ◌≡◌, refl, none, some, List, [], ◌∷◌}
use databasus_operator.Effects.Plain.{◌>>=◌, mapped}
use databasus_operator.Effects.Fallible
use databasus_operator.Client.Auth.{choose_workspace}
use databasus_operator.Client.Request.{DatabasusClient}
use databasus_operator.Startup.{settings, authenticate_from_secret}
use databasus_operator.Startup.Options.{default_flags, manager_options}
use databasus_operator.Startup.Options.Safe.{IsSafe, manager_options-IsSafe}
use databasus_operator.Startup.Main.{Runtime, Exit, exit_0, exit_1, start, main}
use databasus_operator.Startup.Main.Started.{IsStarted, ready_calls, main-IsStarted}
use databasus_operator.Startup.Main.Serves.{main-Serves}
use databasus_operator.Wire.Auth.{decode_sign_in_response, decode_list_workspaces_response}
use databasus_operator.Effects.{World}
use databasus_operator.Effects.Logs.{Adds}
use databasus_operator.Controller.Storage
use databasus_operator.Controller.DatabaseBackup
use databasus_operator.System.Objects.{here, next, storage_turn, backup_turn}
use databasus_operator.System.Origin.{SentTo, Reach-SentTo}
use databasus_operator.Tests.Objects.{key}
use databasus_operator.Tests.Cluster.{Cluster, memory}
use databasus_operator.Tests.Runs.{starting}

-- A manager whose calls all succeed.
abbrev willing : Runtime Cluster
willing call s = (none, s)

-- A manager that cannot be started.
abbrev unwilling : Runtime Cluster
unwilling start s = (some (record { reason = "Conflict"; message = "address in use" }), s)
unwilling _ s = (none, s)

abbrev operator : DatabasusClient
operator = record { base_url = "http://databasus:4005"; token = "t0k3n"; workspace_id = "ws-2" }

abbrev variables : List (String × String)
variables = ("DATABASUS_API_URL", "http://databasus:4005") ∷ []

serving_run : Exit
unfolding main settings
serving_run = (main memory willing default_flags variables starting).0

operator_serves : serving_run ≡ exit_0 (start ∷ ready_calls default_flags operator)
unfolding serving_run ◌>>=◌ authenticate_from_secret mapped Fallible.◌>>=◌ Fallible.wrap_error
    decode_sign_in_response decode_list_workspaces_response choose_workspace
operator_serves = refl

conflicting_run : Exit
unfolding main settings
conflicting_run = (main memory unwilling default_flags variables starting).0

operator_fails : conflicting_run ≡ exit_1 (start ∷ ready_calls default_flags operator)
unfolding conflicting_run ◌>>=◌ authenticate_from_secret mapped Fallible.◌>>=◌ Fallible.wrap_error
    decode_sign_in_response decode_list_workspaces_response choose_workspace
operator_fails = refl

manager_options-IsSafe_example : IsSafe default_flags (manager_options default_flags)
manager_options-IsSafe_example = manager_options-IsSafe default_flags

main-IsStarted_example :
    IsStarted memory unwilling default_flags
      (settings variables)
      (main memory unwilling default_flags variables starting).0
      (main memory unwilling default_flags variables starting).1.log
main-IsStarted_example = main-IsStarted memory unwilling default_flags variables starting

main-Serves_example :
    (main memory willing default_flags variables starting).0
    ≡ exit_0 (start ∷ ready_calls default_flags operator)
unfolding settings ◌>>=◌ authenticate_from_secret mapped Fallible.◌>>=◌ Fallible.wrap_error
    decode_sign_in_response decode_list_workspaces_response choose_workspace
main-Serves_example =
    main-Serves memory willing default_flags variables operator starting (λ call s. refl) refl

-- The world in which `main` has started the manager.
abbrev started : World Cluster
started = (main memory willing default_flags variables starting).1

Reach-SentTo_example :
    Adds
      (SentTo (settings variables).api_url)
      starting.log
      (DatabaseBackup.reconcile memory operator key
        (Storage.reconcile memory operator key started).1).1.log
unfolding main settings ◌>>=◌ authenticate_from_secret mapped Fallible.◌>>=◌ Fallible.wrap_error
    decode_sign_in_response decode_list_workspaces_response choose_workspace
Reach-SentTo_example =
    Reach-SentTo memory willing default_flags variables operator starting started _ refl refl
      (next (next here (storage_turn started key)) (backup_turn _ key))
