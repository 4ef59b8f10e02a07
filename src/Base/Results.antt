-- ===== src/Base/Results.antt =====
-- Results of code that may fail for good. An exception that nothing catches ends the process.
use mathlib.Core.Option.{Option, none, some}

pub data Fault : Type 0 where
  -- std::out_of_range, of substr and stoi
  out_of_range : Fault
  -- std::invalid_argument, of stoi
  invalid_argument : Fault
  -- undefined behaviour: a buffer overrun, a signed overflow, a dead or null pointer
  undefined : Fault
  -- the rounds given to a loop ran out
  spinning : Fault
  -- a wait that nothing ends
  blocked : Fault
  -- exit(-1), of CHECK_EXIT
  exited : Fault

pub data Result {ℓ} (A : Type ℓ) : Type ℓ where
  ok : A → Result A
  err : Fault → Result A

infixl 5 ◌>>=◌
abbrev pub ◌>>=◌ {ℓ κ} : {A : Type ℓ} {B : Type κ} → Result A → (A → Result B) → Result B
ok a >>= f = f a
err e >>= f = err e

-- The null pointer is `none`; to read through it is undefined.
abbrev pub deref {ℓ} : {A : Type ℓ} → Option A → Result A
deref none = err undefined
deref (some a) = ok a
