-- ===== src/Controller/Secret/Holds.antt =====
-- The values that a Secret gives: what the three controllers read when they resolve a reference.
use databasus_operator.Prelude.{String, ◌≡◌, refl, Option, none, some}
use databasus_operator.Api.Meta.{SecretKeyRef, Secret}
use databasus_operator.Effects.{Env, Got, found, get_error, ok, fetch_secret}
use databasus_operator.Effects.Plain.{mapped}
use databasus_operator.Effects.Yields.{Yields}
use databasus_operator.Controller.Secret.{key_of, lookup, value_of}

module _ {S : Type 0} (E : Env S) (namespace : String) where
  -- A read of the Secret that the reference names, in the namespace, gave data with the value
  -- under the key.
  pub data Holds (ref : SecretKeyRef) (v : String) : Type 0 where
    holds :
        (s : S) {secret : Secret}
        → (E.read_secret (record { namespace = namespace; name = ref.name }) s).0 ≡ found secret
        → lookup ref.key secret.values ≡ some v
        → Holds ref v

  -- The same for a reference that may be nil, with the value for a nil one.
  abbrev pub HoldsOr : String → Option SecretKeyRef → String → Type 0
  HoldsOr default none v = v ≡ default
  HoldsOr default (some ref) v = Holds ref v

  value_of-some :
      (ref : SecretKeyRef) (o : Option String) (v : String) → value_of ref o ≡ ok v → o ≡ some v
  value_of-some ref none v h = cc h
  value_of-some ref (some u) v h = cc h

  key_of-Holds :
      (ref : SecretKeyRef) (v : String) (s : S) (got : Got Secret)
      → (E.read_secret (record { namespace = namespace; name = ref.name }) s).0 ≡ got
      → key_of ref got ≡ ok v
      → Holds ref v
  unfolding key_of
  key_of-Holds ref v s (get_error e) read h = cc h
  key_of-Holds ref v s (found secret) read h = holds s read (value_of-some ref _ v h)

  -- The action by which each controller resolves a reference.
  pub secret-Yields :
      (ref : SecretKeyRef)
      → Yields
          (Holds ref)
          (mapped (key_of ref) (fetch_secret E (record { namespace = namespace; name = ref.name })))
  unfolding mapped
  secret-Yields ref = record { at = λ w v h. key_of-Holds ref v w.state _ refl h }
