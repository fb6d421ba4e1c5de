-- ===== src/Effects/Logs.antt =====
-- What an action adds to the log: a predicate on its events, with a rule for each way to build an
-- action, so that `search` follows the text of the program.
use databasus_operator.Prelude.{String, Bool, true, false, Option, none, some, List, ◌∷◌, ◌≡◌, refl}
use databasus_operator.Prelude.{if◌then◌else◌}
use databasus_operator.Effects.{
  KubeError, Error, Res, ok, err, Got, found, get_error, Event, World, M, Run, pure, fail, reading,
  calling, handle, handle_got, handle_some,
}
use databasus_operator.Effects.Plain
use databasus_operator.Effects.Plain.{mapped}
use databasus_operator.Effects.Fallible
use databasus_operator.Effects.Fallible.{wrap_error}

-- The later log is the earlier one with more events, each of which has the property.
pub data Adds (P : Event → Type 0) (old : List Event) : List Event → Type 0 where
  nothing : Adds P old old
  one_more : {e : Event} {new : List Event} → P e → Adds P old new → Adds P old (e ∷ new)

pub Adds-trans : {P : Event → Type 0} {a b c : List Event} → Adds P a b → Adds P b c → Adds P a c
Adds-trans p nothing = p
Adds-trans p (one_more h q) = one_more h (Adds-trans p q)

pub Adds-mono :
    {P Q : Event → Type 0} {a b : List Event} → ((e : Event) → P e → Q e) → Adds P a b → Adds Q a b
Adds-mono f nothing = nothing
Adds-mono f (one_more {e = e} h q) = one_more (f e h) (Adds-mono f q)

pub record Logs {S A : Type 0} (P : Event → Type 0) (m : M S A) : Type 0 where
  pub at : (w : World S) → Adds P w.log (m w).1.log

module _ {S A : Type 0} {P : Event → Type 0} where
  pub Logs-pure : (a : A) → Logs P (pure {S = S} a)
  unfolding pure
  Logs-pure a = record { at = λ w. nothing }

  pub Logs-fail : (e : Error) → Logs P (fail {S = S} {A = A} e)
  unfolding fail
  Logs-fail e = record { at = λ w. nothing }

  pub Logs-reading : (call : S → A × S) → Logs P (reading call)
  unfolding reading
  Logs-reading call = record { at = λ w. nothing }

  pub Logs-calling :
      (call : S → A × S) (event : A → Event) → ((a : A) → P (event a)) → Logs P (calling call event)
  unfolding calling
  Logs-calling call event h = record { at = λ w. one_more (h (call w.state).0) nothing }

  pub Logs-if :
      (b : Bool) (m n : M S A)
      → (b ≡ true → Logs P m)
      → (b ≡ false → Logs P n)
      → Logs P (if b then m else n)
  Logs-if true m n km kn = km refl
  Logs-if false m n km kn = kn refl

module _ {S A B : Type 0} {P : Event → Type 0} where
  pub Logs-bind :
      (m : M S A) (f : A → M S B) → Logs P m → ((a : A) → Logs P (f a)) → Logs P (Plain.◌>>=◌ m f)
  unfolding Plain.◌>>=◌
  Logs-bind m f km kf = record {
    at = λ w. let (a, w') = m w in Adds-trans (km.at w) ((kf a).at w');
  }

  pub Logs-mapped : (f : A → B) (m : M S A) → Logs P m → Logs P (mapped f m)
  unfolding mapped
  Logs-mapped f m km = record { at = km.at }

  pub Logs-handle :
      (r : Res A) (f : Error → M S B) (g : A → M S B)
      → ((e : Error) → Logs P (f e))
      → ((a : A) → Logs P (g a))
      → Logs P (handle r f g)
  unfolding handle
  Logs-handle (err e) f g kf kg = kf e
  Logs-handle (ok a) f g kf kg = kg a

  pub Logs-handle_got :
      (r : Got A) (f : KubeError → M S B) (g : A → M S B)
      → ((e : KubeError) → Logs P (f e))
      → ((a : A) → Logs P (g a))
      → Logs P (handle_got r f g)
  unfolding handle_got
  Logs-handle_got (get_error e) f g kf kg = kf e
  Logs-handle_got (found a) f g kf kg = kg a

  pub Logs-handle_some :
      (r : Option A) (f : A → M S B) (m : M S B)
      → ((a : A) → r ≡ some a → Logs P (f a))
      → Logs P m
      → Logs P (handle_some r f m)
  unfolding handle_some
  Logs-handle_some (some a) f m kf km = kf a refl
  Logs-handle_some none f m kf km = km

module _ {S A B : Type 0} {P : Event → Type 0} where
  pub Logs-bind_run :
      (m : Run S A) (f : A → Run S B)
      → Logs P m
      → ((a : A) → Logs P (f a))
      → Logs P (Fallible.◌>>=◌ m f)
  unfolding Fallible.◌>>=◌
  Logs-bind_run m f km kf = record {
    at = λ w.
        let (r, w') = m w in
        Adds-trans (km.at w) ((Logs-handle r fail f (λ e. Logs-fail e) kf).at w');
  }

module _ {S A : Type 0} {P : Event → Type 0} where
  pub Logs-wrap_error : (prefix : String) (m : Run S A) → Logs P m → Logs P (wrap_error prefix m)
  unfolding wrap_error
  Logs-wrap_error prefix m km = record { at = km.at }

pub ruleset log_rules = (
  Logs-pure, Logs-fail, Logs-reading, Logs-calling, Logs-if, Logs-bind, Logs-mapped, Logs-handle,
  Logs-handle_got, Logs-handle_some, Logs-bind_run, Logs-wrap_error,
)

-- An action that adds nothing to the log.
abbrev pub Silent : Event → Type 0
Silent e = ⊥

module _ {S A : Type 0} where
  pub Logs-Silent : (P : Event → Type 0) (m : M S A) → Logs Silent m → Logs P m
  Logs-Silent P m k = record { at = λ w. Adds-mono (λ e. absurd) (k.at w) }

pub unchanged : {old new : List Event} → Adds Silent old new → new ≡ old
unchanged nothing = refl
unchanged (one_more h q) = absurd h
