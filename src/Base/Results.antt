-- ===== src/Base/Results.antt =====
-- Fallible code. `err` is an error of the program: a `VideoUnderstandingError` with its reason code,
-- or a `HomeRemoteContractError` with its message; `crash` is any other Python exception.
use Prim.Native.String.{String}
use mathlib.Core.Bool.{Bool, true, false}

pub data Result {ℓ} (A : Type ℓ) : Type ℓ where
  ok : A → Result A
  err : String → Result A
  crash : Result A

infixl 5 ◌>>=◌ ◌>>◌
abbrev pub ◌>>=◌ {ℓ κ} : {A : Type ℓ} {B : Type κ} → Result A → (A → Result B) → Result B
ok a >>= f = f a
err e >>= f = err e
crash >>= f = crash

abbrev pub ◌>>◌ {ℓ κ} : {A : Type ℓ} {B : Type κ} → Result A → Result B → Result B
m >> k = m >>= λ _. k

-- `if bad: raise …`, with the code of the error.
abbrev pub raise_if : Bool → String → Result (Unit {0})
raise_if true code = err code
raise_if false code = ok tt
