-- ===== src/Effects/Fallible.antt =====
-- Actions one after the other, up to the first that returns an error: the shape of
-- `if err != nil { return …, err }`.
use databasus_operator.Prelude.{String, ◌<>◌}
use databasus_operator.Effects.{Error, text_error, error_text, Res, ok, err, Run, fail, handle}
use databasus_operator.Effects.Plain
use databasus_operator.Effects.Plain.{mapped}

infixl 5 ◌>>=◌
unfoldable pub ◌>>=◌ : {S A B : Type 0} → Run S A → (A → Run S B) → Run S B
unfolding Plain.◌>>=◌ mapped
m >>= f = Plain.◌>>=◌ m λ r. handle r fail f

-- `fmt.Errorf("…: %w", err)`
abbrev pub wrapped : String → Error → Error
wrapped prefix e = text_error (prefix <> (": " <> error_text e))

abbrev pub wrap_res : {A : Type 0} → String → Res A → Res A
wrap_res prefix (ok a) = ok a
wrap_res prefix (err e) = err (wrapped prefix e)

unfoldable pub wrap_error : {S A : Type 0} → String → Run S A → Run S A
unfolding mapped
wrap_error prefix = mapped (wrap_res prefix)
