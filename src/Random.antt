-- ===== src/Random.antt =====
-- The random numbers of chase.hpp and disk_bench.cpp: `std::mt19937_64` with
-- `std::uniform_int_distribution`, which the standard library brings. The state of the generator is
-- any type, and of the distribution the code relies only on its range.
use llm_river.Base.{ℕ, ◌≤◌}

pub record Rng {ℓ} (G : Type ℓ) : Type ℓ where
  -- `std::mt19937_64 rng(seed)`
  pub seeded : ℕ → G
  -- `std::uniform_int_distribution<T> dist(lo, hi); dist(rng)`
  pub draw : ℕ → ℕ → G → ℕ × G

-- A draw between `lo` and `hi` lies between `lo` and `hi`, both included.
pub record IsUniform {ℓ} {G : Type ℓ} (rng : Rng G) : Type ℓ where
  pub ge_lo : (lo hi : ℕ) (g : G) → lo ≤ hi → lo ≤ (rng.draw lo hi g).0
  pub le_hi : (lo hi : ℕ) (g : G) → lo ≤ hi → (rng.draw lo hi g).0 ≤ hi
