-- ===== src/Effects/Shares.antt =====
-- What the calls of an action have in common: a value that is the same for all of them, and known
-- only when the action has run.
use databasus_operator.Prelude.{◌≡◌, refl, Bool, true, false, Option, none, some, if◌then◌else◌}
use databasus_operator.Effects.{Error, Res, ok, err, Event, World, M, handle, handle_some}
use databasus_operator.Effects.Plain.{◌>>=◌}
use databasus_operator.Effects.Logs.{Logs, Adds, Adds-trans, Adds-mono, Silent}

-- The action adds events that have the property for one value.
pub record Shares {V S A : Type 0} (P : V → Event → Type 0) (m : M S A) : Type 0 where
  pub at : (w : World S) → (v : V) × Adds (P v) w.log (m w).1.log

module _ {V S A : Type 0} {P : V → Event → Type 0} where
  pub Logs-Shares : (v : V) (m : M S A) → Logs (P v) m → Shares P m
  Logs-Shares v m k = record { at = λ w. (v, k.at w) }

  pub Shares-if :
      (b : Bool) (m n : M S A)
      → (b ≡ true → Shares P m)
      → (b ≡ false → Shares P n)
      → Shares P (if b then m else n)
  Shares-if true m n km kn = km refl
  Shares-if false m n km kn = kn refl

module _ {V S A B : Type 0} {P : V → Event → Type 0} where
  -- An action that calls nothing, and what follows it.
  pub Shares-bind :
      (m : M S A) (f : A → M S B) → Logs Silent m → ((a : A) → Shares P (f a)) → Shares P (m >>= f)
  unfolding ◌>>=◌
  Shares-bind m f km kf = record {
    at = λ w.
        let (a, w') = m w in
        let (v, adds) = (kf a).at w' in (v, Adds-trans (Adds-mono (λ e. absurd) (km.at w)) adds);
  }

  pub Shares-handle :
      (r : Res A) (f : Error → M S B) (g : A → M S B)
      → ((e : Error) → Shares P (f e))
      → ((a : A) → Shares P (g a))
      → Shares P (handle r f g)
  unfolding handle
  Shares-handle (err e) f g kf kg = kf e
  Shares-handle (ok a) f g kf kg = kg a

  pub Shares-handle_some :
      (r : Option A) (f : A → M S B) (m : M S B)
      → ((a : A) → r ≡ some a → Shares P (f a))
      → Shares P m
      → Shares P (handle_some r f m)
  unfolding handle_some
  Shares-handle_some (some a) f m kf km = kf a refl
  Shares-handle_some none f m kf km = km

pub ruleset share_rules = (Shares-if, Shares-bind, Shares-handle, Shares-handle_some)
