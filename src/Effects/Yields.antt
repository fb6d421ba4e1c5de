-- ===== src/Effects/Yields.antt =====
-- What is true of the value of an action that returns no error, with a rule for each way to build
-- such an action.
use databasus_operator.Prelude.{String, ◌≡◌, refl, Bool, true, false, inl, inr, if◌then◌else◌}
use databasus_operator.Effects.{Error, ok, World, Run, pure, fail, handle, Res-cases}
use databasus_operator.Effects.Fallible.{◌>>=◌, wrap_error}

pub record Yields {S A : Type 0} (Q : A → Type 0) (m : Run S A) : Type 0 where
  pub at : (w : World S) (a : A) → (m w).0 ≡ ok a → Q a

module _ {S A : Type 0} {Q : A → Type 0} where
  pub Yields-pure : (a : A) → Q a → Yields Q (pure {S = S} (ok a))
  unfolding pure
  Yields-pure a q = record { at = λ w b h. let same : b ≡ a = cc h in rw same q }

  pub Yields-fail : (e : Error) → Yields Q (fail {S = S} e)
  unfolding fail
  Yields-fail e = record { at = λ w b h. cc h }

  pub Yields-if :
      (b : Bool) (m n : Run S A)
      → (b ≡ true → Yields Q m)
      → (b ≡ false → Yields Q n)
      → Yields Q (if b then m else n)
  Yields-if true m n km kn = km refl
  Yields-if false m n km kn = kn refl

  pub Yields-wrap_error :
      (prefix : String) (m : Run S A) → Yields Q m → Yields Q (wrap_error prefix m)
  unfolding wrap_error
  Yields-wrap_error prefix m k = record {
    at = λ w a h. elim (Res-cases (m w).0) [
      | inl (b, e) ↦ k.at w a (rw e (rw e at h))
      | inr (b, e) ↦ cc (rw e at h)
    ];
  }

module _ {S A B : Type 0} (Q : A → Type 0) {R : B → Type 0} where
  pub Yields-bind :
      (m : Run S A) (f : A → Run S B)
      → Yields Q m
      → ((a : A) → Q a → Yields R (f a))
      → Yields R (m >>= f)
  unfolding ◌>>=◌ handle fail
  Yields-bind m f km kf = record {
    at = λ w b h. elim (Res-cases (m w).0) [
      | inl (a, e) ↦ (kf a (km.at w a e)).at (m w).1 b (rw e at h)
      | inr (x, e) ↦ cc (rw e at h)
    ];
  }
