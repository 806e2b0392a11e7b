-- ===== src/Chase.antt =====
-- tools/roofline/src/chase.hpp: the permutation and the pointer chase that it wires. An array of
-- `ChaseNode` is the list of its `next` fields. `none` is an access out of bounds.
pub mod Cycle
pub mod Positions
pub mod Extend
pub mod Sattolo
pub mod Wire
use llm_river.Base.{
  ℕ, zero, suc, ◌+◌, ◌%◌, ◌^◌, Option, none, some, List, [], ◌∷◌, ◌<◌, ltb, if◌then◌else◌, length,
  get_elem?, get_or, set, ◌>>=◌,
}
use llm_river.Random.{Rng}

-- `static_cast<uint32_t>(n)`
abbrev pub u32 : ℕ → ℕ
u32 n = n % 2 ^ 32

-- `for (size_t i = 0; i < count; ++i) perm[i] = static_cast<uint32_t>(i);`
unfoldable pub identity_from : ℕ → ℕ → List ℕ
identity_from zero i = []
identity_from (suc left) i = u32 i ∷ identity_from left (i + 1)

-- `std::swap(perm[i], perm[j])`
unfoldable pub swap : List ℕ → ℕ → ℕ → Option (List ℕ)
swap perm i j = do a ← get_elem? perm i; b ← get_elem? perm j; some (set (set perm i b) j a)

-- `arr[i].next = to`
pub write_next : List ℕ → ℕ → ℕ → Option (List ℕ)
write_next arr i to = if ltb i (length arr) then some (set arr i to) else none

-- The loop over `k`, with `left` rounds to go.
unfoldable pub wire_from : List ℕ → ℕ → ℕ → ℕ → List ℕ → Option (List ℕ)
unfolding write_next
wire_from perm count zero k arr = some arr
wire_from perm count (suc left) k arr = do
  from ← get_elem? perm k
  to ← get_elem? perm ((k + 1) % count)
  arr' ← write_next arr from to
  wire_from perm count left (k + 1) arr'

module _ {ℓ} {G : Type ℓ} (rng : Rng G) where
  -- The loop from `i` down to 1; for `i = suc k` the draw is from 0 to `i - 1 = k`.
  unfoldable pub shuffle : ℕ → G → List ℕ → Option (List ℕ)
  unfolding swap
  shuffle zero g perm = some perm
  shuffle (suc k) g perm =
      let (j, g') = rng.draw 0 k g in swap perm (suc k) j >>= λ perm'. shuffle k g' perm'

  -- At `count = 0` the loop starts at `i = SIZE_MAX` and swaps out of bounds.
  unfoldable pub build_single_cycle_permutation : ℕ → ℕ → Option (List ℕ)
  unfolding shuffle identity_from
  build_single_cycle_permutation zero seed = none
  build_single_cycle_permutation (suc k) seed =
      shuffle k (rng.seeded seed) (identity_from (suc k) 0)

  unfoldable pub wire_single_cycle : List ℕ → ℕ → ℕ → Option (List ℕ)
  unfolding wire_from build_single_cycle_permutation
  wire_single_cycle arr count seed = do
    perm ← build_single_cycle_permutation count seed
    wire_from perm count count 0 arr

-- `arr[cur].next`, where `cur` is in bounds.
abbrev pub next : List ℕ → ℕ → ℕ
next arr cur = get_or arr cur 0
