-- ===== src/Float.antt =====
-- `double`, which the model takes as a parameter: its operations, its tests and its print by
-- `operator<<`. No law is assumed here; a theorem that needs one takes it as a hypothesis.
use llm_river.Base.{ℕ, Bool, Bytes}

pub record Float {ℓ} (F : Type ℓ) : Type ℓ where
  -- `static_cast<double>` of an integer that is not negative
  pub of_ℕ : ℕ → F
  -- the literal with the digits `m` and `e` of them behind the point: `lit 5 2` is 0.05
  pub lit : ℕ → ℕ → F
  pub add : F → F → F
  pub sub : F → F → F
  pub mul : F → F → F
  pub div : F → F → F
  -- `<` and `<=`, false where an operand is NaN
  pub lt : F → F → Bool
  pub le : F → F → Bool
  pub is_nan : F → Bool
  pub is_inf : F → Bool
  -- `out << v`
  pub show : F → Bytes
