-- ===== src/Controller/Outcome.antt =====
-- What a call of `Reconcile` comes to.
use databasus_operator.Prelude.{ℕ, Option, none, some}
use databasus_operator.Effects.{KubeError, Error, kube_error, M, pure}

-- The seconds of `RequeueAfter` (0 where it is not set) and the error, or a nil dereference.
pub data Outcome : Type 0 where
  returned : ℕ → Option Error → Outcome
  panicked : Outcome

-- `return ctrl.Result{}, err` for an error of the Kubernetes client that may be nil.
abbrev pub finished : Option KubeError → Outcome
finished none = returned 0 none
finished (some e) = returned 0 (some (kube_error e))

-- `return ctrl.Result{RequeueAfter: …}, nil`
abbrev pub requeue : {S : Type 0} → ℕ → M S Outcome
requeue seconds = pure (returned seconds none)
