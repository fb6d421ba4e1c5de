-- ===== src/Startup/Main/Perform.antt =====
-- cmd/main.go: a rule for each call of the manager in `main`.
use databasus_operator.Prelude.{◌≡◌, inl, inr, none, List, ◌∷◌, Option-cases}
use databasus_operator.Effects.{Event, M, pure, reading, handle_some}
use databasus_operator.Effects.Leads.{Leads}
use databasus_operator.Effects.Plain.{◌>>=◌}
use databasus_operator.Startup.Main.{Call, Exit, exit_1, Runtime, perform}

module _ {S : Type 0} (R : Runtime S) (P : Exit → List Event → Type 0) (log : List Event) where
  -- A call of the manager: it fails and the process ends, or the rest follows, with the log as it
  -- was.
  pub Leads-perform :
      (call : Call) (done : List Call) (next : List Call → M S Exit)
      → ((x : S) → ((R call x).0 ≡ none → ⊥) → P (exit_1 (call ∷ done)) log)
      → ((x : S) → (R call x).0 ≡ none → Leads P log (next (call ∷ done)))
      → Leads P log (perform R call done next)
  unfolding perform ◌>>=◌ reading handle_some pure
  Leads-perform call done next bad good = record {
    at = λ x. elim (Option-cases (R call x).0) [
      | inl e ↦ rw e ((good x e).at (R call x).1)
      | inr (k, e) ↦ rw e (bad x (λ n. cc (e, n)))
    ];
  }
