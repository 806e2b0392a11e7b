-- ===== src/Base/Run.antt =====
-- How a call can end: it returns, it throws, it does what C++ leaves undefined, or, in the model
-- only, it uses up its fuel.
use mathlib.Core.Option.{Option, none, some}

pub data Why : Type 0 where
  length_error undefined out_of_fuel : Why

pub data Run {ℓ} (A : Type ℓ) : Type ℓ where
  done : A → Run A
  stopped : Why → Run A

infixl 5 ◌>>=◌ ◌>>◌
abbrev pub ◌>>=◌ {ℓ κ} : {A : Type ℓ} {B : Type κ} → Run A → (A → Run B) → Run B
done a >>= f = f a
stopped w >>= f = stopped w

abbrev pub or_stop {ℓ} : {A : Type ℓ} → Why → Option A → Run A
or_stop w (some a) = done a
or_stop w none = stopped w

abbrev pub ◌>>◌ {ℓ} : {B : Type ℓ} → Run (Unit {0}) → Run B → Run B
m >> k = m >>= λ _. k
