-- ===== src/Effects/Leads.antt =====
-- What an action comes to that starts from a given log, whatever the state outside is: a predicate
-- on its result and on the log after it, with a rule for each way to go on.
use databasus_operator.Prelude.{◌≡◌, refl, ap, inl, inr, List, ◌∷◌, String}
use databasus_operator.Effects.{
  Event, World, M, pure, fail, handle, reading, calling, Error, Res, ok, err, Run, Res-cases,
}
use databasus_operator.Effects.Fallible
use databasus_operator.Effects.Fallible.{wrap_error}
use databasus_operator.Effects.Plain.{◌>>=◌, mapped}

pub record Leads {S A : Type 0} (P : A → List Event → Type 0) (log : List Event) (m : M S A)
    : Type 0 where
  pub at :
      (x : S)
      → P (m (record { state = x; log = log })).0 (m (record { state = x; log = log })).1.log

module _ {S A : Type 0} (P : A → List Event → Type 0) (log : List Event) where
  pub Leads-pure : (a : A) → P a log → Leads P log (pure {S = S} a)
  unfolding pure
  Leads-pure a h = record { at = λ x. h }

module _ {S A B : Type 0} (P : B → List Event → Type 0) (log : List Event) where
  pub Leads-reading :
      (call : S → A × S) (f : A → M S B)
      → ((x : S) → Leads P log (f (call x).0))
      → Leads P log (reading call >>= f)
  unfolding ◌>>=◌ reading
  Leads-reading call f k = record { at = λ x. (k x).at (call x).1 }

  pub Leads-calling :
      (call : S → A × S) (event : A → Event) (f : A → M S B)
      → ((x : S) → Leads P (event (call x).0 ∷ log) (f (call x).0))
      → Leads P log (calling call event >>= f)
  unfolding ◌>>=◌ calling
  Leads-calling call event f k = record { at = λ x. (k x).at (call x).1 }

module _ {S A B : Type 0} where
  -- An action whose result is known, and what follows it.
  pub bind_step :
      (m : M S A) (f : A → M S B) (w v : World S) (a : A) → m w ≡ (a, v) → (m >>= f) w ≡ f a v
  unfolding ◌>>=◌
  bind_step m f w v a e = ap (λ (r : A × World S). f r.0 r.1) e

  pub mapped_step :
      (g : A → B) (m : M S A) (w v : World S) (a : A) → m w ≡ (a, v) → mapped g m w ≡ (g a, v)
  unfolding mapped
  mapped_step g m w v a e = ap (λ (r : A × World S). (g r.0, r.1)) e

module _ {S A B : Type 0} (P : Res B → List Event → Type 0) (old : List Event) where
  -- An action that may return an error, and what follows it if it does not.
  pub Leads-run :
      (Q : A → List Event → Type 0) (m : Run S A) (f : A → Run S B)
      → ((w : World S) (a : A) → w.log ≡ old → (m w).0 ≡ ok a → Q a (m w).1.log)
      → ((e : Error) (log : List Event) → P (err e) log)
      → ((a : A) (log : List Event) → Q a log → Leads P log (f a))
      → Leads P old (Fallible.◌>>=◌ m f)
  unfolding Fallible.◌>>=◌ ◌>>=◌ handle fail
  Leads-run Q m f known bad k = record {
    at = λ x.
        let w : World S = record { state = x; log = old } in
        elim (Res-cases (m w).0) [
          | inl (a, e) ↦ rw e ((k a (m w).1.log (known w a refl e)).at (m w).1.state)
          | inr (y, e) ↦ rw e (bad y (m w).1.log)
        ];
  }

module _ {S A : Type 0} where
  -- An error that is wrapped is an error all the same.
  pub wrap_error-ok :
      (prefix : String) (m : Run S A) (w : World S) (a : A)
      → (wrap_error prefix m w).0 ≡ ok a
      → ((m w).0 ≡ ok a) × ((wrap_error prefix m w).1 ≡ (m w).1)
  unfolding wrap_error mapped ◌>>=◌
  wrap_error-ok prefix m w a h = elim (Res-cases (m w).0) [
    | inl (b, e) ↦ (rw e (rw e at h), refl)
    | inr (b, e) ↦ cc (rw e at h)
  ]
