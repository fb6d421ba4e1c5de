-- ===== src/Effects/Guards.antt =====
-- A condition on each event and the events before it, along a whole log.
use databasus_operator.Prelude.{Bool, true, false, Option, none, some, List, [], ◌∷◌, if◌then◌else◌}
use databasus_operator.Effects.{
  KubeError, Error, Res, ok, err, Got, found, get_error, Event, World, M, pure, handle, handle_got,
  handle_some,
}
use databasus_operator.Effects.Plain.{◌>>=◌}
use databasus_operator.Effects.Logs.{Adds, nothing, one_more, Logs}

-- Each event stands where the guard allows it.
abbrev pub GuardedBy : (Event → List Event → Type 0) → List Event → Type 0
GuardedBy G [] = Unit
GuardedBy G (e ∷ old) = G e old × GuardedBy G old

-- The guard allows the event after any others.
abbrev pub AllowedBy : (Event → List Event → Type 0) → Event → Type 0
AllowedBy G e = (old : List Event) → G e old

pub Adds-GuardedBy :
    {G : Event → List Event → Type 0} {old new : List Event}
    → Adds (AllowedBy G) old new
    → GuardedBy G old
    → GuardedBy G new
Adds-GuardedBy nothing g = g
Adds-GuardedBy (one_more {new = new} h a) g = (h new, Adds-GuardedBy a g)

-- An action that keeps a guarded log guarded.
pub record Keeps {S A : Type 0} (G : Event → List Event → Type 0) (m : M S A) : Type 0 where
  pub at : (w : World S) → GuardedBy G w.log → GuardedBy G (m w).1.log

module _ {S A : Type 0} (G : Event → List Event → Type 0) where
  pub Logs-Keeps : (m : M S A) → Logs (AllowedBy G) m → Keeps G m
  Logs-Keeps m k = record { at = λ w g. Adds-GuardedBy (k.at w) g }

module _ {S A : Type 0} {G : Event → List Event → Type 0} where
  pub Keeps-pure : (a : A) → Keeps G (pure {S = S} a)
  unfolding pure
  Keeps-pure a = record { at = λ w g. g }

  pub Keeps-if : (b : Bool) (m n : M S A) → Keeps G m → Keeps G n → Keeps G (if b then m else n)
  Keeps-if true m n km kn = km
  Keeps-if false m n km kn = kn

module _ {S A B : Type 0} {G : Event → List Event → Type 0} where
  pub Keeps-bind :
      (m : M S A) (f : A → M S B) → Keeps G m → ((a : A) → Keeps G (f a)) → Keeps G (m >>= f)
  unfolding ◌>>=◌
  Keeps-bind m f km kf = record { at = λ w g. let (a, w') = m w in (kf a).at w' (km.at w g) }

  pub Keeps-handle :
      (r : Res A) (f : Error → M S B) (g : A → M S B)
      → ((e : Error) → Keeps G (f e))
      → ((a : A) → Keeps G (g a))
      → Keeps G (handle r f g)
  unfolding handle
  Keeps-handle (err e) f g kf kg = kf e
  Keeps-handle (ok a) f g kf kg = kg a

  pub Keeps-handle_got :
      (r : Got A) (f : KubeError → M S B) (g : A → M S B)
      → ((e : KubeError) → Keeps G (f e))
      → ((a : A) → Keeps G (g a))
      → Keeps G (handle_got r f g)
  unfolding handle_got
  Keeps-handle_got (get_error e) f g kf kg = kf e
  Keeps-handle_got (found a) f g kf kg = kg a

pub ruleset keep_rules = (Keeps-pure, Keeps-if, Keeps-bind, Keeps-handle, Keeps-handle_got)

-- To prove something of what follows an optional value, prove it of both branches.
pub handle_some-elim :
    {S A B : Type 0} (P : M S B → Type 0) (r : Option A) (f : A → M S B) (m : M S B)
    → ((a : A) → P (f a))
    → P m
    → P (handle_some r f m)
unfolding handle_some
handle_some-elim P (some a) f m kf km = kf a
handle_some-elim P none f m kf km = km
