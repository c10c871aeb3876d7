-- ===== src/Base/Results.antt =====
-- What a Rust expression that can fail comes to: a value, a panic (an index out of bounds, a failed
-- assertion), or undefined behaviour (`assume_init` of a slot that was never written).
use mathlib.Core.Option.{Option, none, some}

pub data Outcome {ℓ} (A : Type ℓ) : Type ℓ where
  ok : A → Outcome A
  panic : Outcome A
  undefined : Outcome A

infixl 5 ◌>>=◌
abbrev pub ◌>>=◌ {ℓ κ} : {A : Type ℓ} {B : Type κ} → Outcome A → (A → Outcome B) → Outcome B
ok a >>= f = f a
panic >>= f = panic
undefined >>= f = undefined

-- `xs[i]`: an index out of bounds panics.
abbrev pub or_panic {ℓ} : {A : Type ℓ} → Option A → Outcome A
or_panic none = panic
or_panic (some a) = ok a

-- `slot.assume_init_ref()`: a slot that holds no value is undefined behaviour.
abbrev pub assume_init {ℓ} : {A : Type ℓ} → Option A → Outcome A
assume_init none = undefined
assume_init (some a) = ok a
