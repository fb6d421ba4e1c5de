-- ===== src/Controller/Secret.antt =====
-- The lookup of a key in the data of a Secret, which the three controllers write out alike.
pub mod Holds
use databasus_operator.Prelude.{String, ◌<>◌, ◌==◌, Option, none, some, List, [], ◌∷◌}
use databasus_operator.Prelude.{if◌then◌else◌}
use databasus_operator.Prelude.Text.{quote}
use databasus_operator.Api.Meta.{SecretKeyRef, Secret}
use databasus_operator.Effects.{text_error, Res, ok, err, Got, found, get_error}

-- `secret.Data[key]`
unfoldable pub lookup : String → List (String × String) → Option String
lookup key [] = none
lookup key ((k, v) ∷ rest) = if k == key then some v else lookup key rest

abbrev pub value_of : SecretKeyRef → Option String → Res String
value_of ref none =
    err (text_error ("key " <> (quote ref.key <> (" not found in secret " <> quote ref.name))))
value_of ref (some v) = ok v

-- What follows the `Get` of the Secret.
unfoldable pub key_of : SecretKeyRef → Got Secret → Res String
unfolding lookup quote
key_of ref (get_error e) =
    err (text_error ("secret " <> (quote ref.name <> (" not found: " <> e.message))))
key_of ref (found secret) = value_of ref (lookup ref.key secret.values)
