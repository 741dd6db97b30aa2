-- ===== src/Prelude/Actions.antt =====
-- Methods that change an object and may throw. What was written before a `throw` stays written, so
-- the state comes back beside the exception too. An exception is the C string that is thrown.
use Prim.Native.String.{String}

pub data Result {ℓ} (A : Type ℓ) : Type ℓ where
  returned : A → Result A
  thrown : String → Result A

abbrev pub Action : Type 0 → Type 0 → Type 0
Action S A = S → Result A × S

abbrev pub continue : {S A B : Type 0} → Result A → (A → Action S B) → Action S B
continue (returned a) f s = f a s
continue (thrown e) f s = (thrown e, s)

infixl 10 ◌>>=◌ ◌>>◌
abbrev pub ◌>>=◌ : {S A B : Type 0} → Action S A → (A → Action S B) → Action S B
◌>>=◌ m f s = continue (m s).0 f (m s).1

abbrev pub ◌>>◌ : {S A B : Type 0} → Action S A → Action S B → Action S B
m >> k = m >>= λ _. k

abbrev pub pure : {S A : Type 0} → A → Action S A
pure a s = (returned a, s)

abbrev pub throw : {S A : Type 0} → String → Action S A
throw e s = (thrown e, s)
