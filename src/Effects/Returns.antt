-- ===== src/Effects/Returns.antt =====
-- What an action returns: a predicate on its result and on the calls so far, with a rule for each way to build an action.
use databasus_operator.Prelude.{Bool, true, false, Option, none, some, List, if◌then◌else◌}
use databasus_operator.Effects.{
  KubeError, Error, Res, ok, err, Got, found, get_error, Event, World, M, Run, pure, fail, handle,
  handle_got, handle_some,
}
use databasus_operator.Effects.Plain.{◌>>=◌}
use databasus_operator.Effects.Fallible

-- The result of an action and the log after it satisfy a predicate, wherever it starts.
pub record Returns {S A : Type 0} (P : A → List Event → Type 0) (m : M S A) : Type 0 where
  pub at : (w : World S) → P (m w).0 (m w).1.log

module _ {S A : Type 0} {P : Res A → List Event → Type 0} where
  pub Returns-fail :
      (e : Error) → ((e : Error) (log : List Event) → P (err e) log) → Returns P (fail {S = S} e)
  unfolding fail
  Returns-fail e h = record { at = λ w. h e w.log }

module _ {S A : Type 0} {P : A → List Event → Type 0} where
  pub Returns-pure : (a : A) → ((log : List Event) → P a log) → Returns P (pure {S = S} a)
  unfolding pure
  Returns-pure a h = record { at = λ w. h w.log }

  pub Returns-if :
      (b : Bool) (m n : M S A) → Returns P m → Returns P n → Returns P (if b then m else n)
  Returns-if true m n km kn = km
  Returns-if false m n km kn = kn

module _ {S A B : Type 0} {P : B → List Event → Type 0} where
  pub Returns-bind : (m : M S A) (f : A → M S B) → ((a : A) → Returns P (f a)) → Returns P (m >>= f)
  unfolding ◌>>=◌
  Returns-bind m f kf = record { at = λ w. let (a, w') = m w in (kf a).at w' }

  pub Returns-handle :
      (r : Res A) (f : Error → M S B) (g : A → M S B)
      → ((e : Error) → Returns P (f e))
      → ((a : A) → Returns P (g a))
      → Returns P (handle r f g)
  unfolding handle
  Returns-handle (err e) f g kf kg = kf e
  Returns-handle (ok a) f g kf kg = kg a

  pub Returns-handle_got :
      (r : Got A) (f : KubeError → M S B) (g : A → M S B)
      → ((e : KubeError) → Returns P (f e))
      → ((a : A) → Returns P (g a))
      → Returns P (handle_got r f g)
  unfolding handle_got
  Returns-handle_got (get_error e) f g kf kg = kf e
  Returns-handle_got (found a) f g kf kg = kg a

  pub Returns-handle_some :
      (r : Option A) (f : A → M S B) (m : M S B)
      → ((a : A) → Returns P (f a))
      → Returns P m
      → Returns P (handle_some r f m)
  unfolding handle_some
  Returns-handle_some (some a) f m kf km = kf a
  Returns-handle_some none f m kf km = km

module _ {S A B : Type 0} {P : Res B → List Event → Type 0} where
  pub Returns-bind_run :
      (m : Run S A) (f : A → Run S B)
      → ((e : Error) (log : List Event) → P (err e) log)
      → ((a : A) → Returns P (f a))
      → Returns P (Fallible.◌>>=◌ m f)
  unfolding Fallible.◌>>=◌
  Returns-bind_run m f ke kf =
      Returns-bind m _ λ r. Returns-handle r fail f (λ e. Returns-fail e ke) kf

pub ruleset return_rules = (
  Returns-pure, Returns-if, Returns-bind, Returns-handle, Returns-handle_got, Returns-handle_some,
  Returns-fail, Returns-bind_run,
)
