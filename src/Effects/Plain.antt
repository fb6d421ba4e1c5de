-- ===== src/Effects/Plain.antt =====
-- Actions one after the other.
use databasus_operator.Effects.{M, pure, fail, reading, calling, handle, handle_got, handle_some}

infixl 5 ◌>>=◌ ◌>>◌
-- Opening this opens the other ways to build an action too.
unfoldable pub ◌>>=◌ : {S A B : Type 0} → M S A → (A → M S B) → M S B
unfolding pure fail reading calling handle handle_got handle_some
◌>>=◌ m f w = let (a, w') = m w in f a w'

abbrev pub ◌>>◌ : {S A B : Type 0} → M S A → M S B → M S B
m >> k = m >>= λ _. k

-- An action whose answer goes through a function.
unfoldable pub mapped : {S A B : Type 0} → (A → B) → M S A → M S B
unfolding ◌>>=◌
mapped f m = m >>= λ a. pure (f a)
