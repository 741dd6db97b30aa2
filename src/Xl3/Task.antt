-- ===== src/Xl3/Task.antt =====
-- Methods of the link and of the model: they return or throw, in both cases with the state as they
-- leave it, or they never come back, after an access past the end of an array or a wait without end.
use Prim.Native.String.{String}
use penn_daq.Prelude.{Option, none, some}

pub data Outcome (S A : Type 0) : Type 0 where
  returned : A → S → Outcome S A
  thrown : String → S → Outcome S A
  lost : Outcome S A

abbrev pub Task : Type 0 → Type 0 → Type 0
Task S A = S → Outcome S A

abbrev pub after : {S A B : Type 0} → Outcome S A → (A → Task S B) → Outcome S B
after (returned a s) f = f a s
after (thrown e s) f = thrown e s
after lost f = lost

infixl 10 ◌>>=◌ ◌>>◌
abbrev pub ◌>>=◌ : {S A B : Type 0} → Task S A → (A → Task S B) → Task S B
◌>>=◌ m f s = after (m s) f

abbrev pub ◌>>◌ : {S A B : Type 0} → Task S A → Task S B → Task S B
m >> k = m >>= λ _. k

abbrev pub pure : {S A : Type 0} → A → Task S A
pure a s = returned a s

abbrev pub throw : {S A : Type 0} → String → Task S A
throw e s = thrown e s

abbrev pub lift : {S A : Type 0} → Option A → Task S A
lift (some a) s = returned a s
lift none s = lost

abbrev pub get : {S : Type 0} → Task S S
get s = returned s s

abbrev pub change : {S : Type 0} → (S → S) → Task S Unit
change f s = returned tt (f s)
