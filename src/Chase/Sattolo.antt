-- ===== src/Chase/Sattolo.antt =====
-- `build_single_cycle_permutation` of tools/roofline/src/chase.hpp. The loop is read as a function on
-- positions, `jumps`, whose cycle grows by one node with each round.
use Prim.Native.Nat.add
use llm_river.Base.Counting.{count, OnceBelow}
use llm_river.Base.{
  ℕ, zero, suc, ◌^◌, ◌≤◌, ◌<◌, ◌≡◌, ◌≢◌, refl, some, List, [], ◌∷◌, arith, ◌==◌, length, All, ◌∙◌,
  get_or, ==_iff, Bool-cases, inl, inr,
}
use llm_river.Chase.Cycle.{orbit, after, Chain, Chain-congr, All-lt, cycle_visits}
use llm_river.Chase.Extend.{extend_cycle}
use llm_river.Chase.Positions.{
  transpose, swapped, swap-swapped, length-swapped, count-swapped, get_or-swapped,
  length-identity_from, get_or-identity_from, count-identity_from,
}
use llm_river.Chase.{identity_from, shuffle, build_single_cycle_permutation}
use llm_river.Random.{Rng, IsUniform}

module _ {ℓ} {G : Type ℓ} (rng : Rng G) where
  -- What the rounds from `k` down do to positions.
  jumps : ℕ → G → ℕ → ℕ
  jumps zero g x = x
  jumps (suc k) g x = let (j, g') = rng.draw 0 k g in transpose (suc k) j (jumps k g' x)

module _ {ℓ} {G : Type ℓ} (rng : Rng G) (uniform : IsUniform rng) where
  open uniform use {le_hi}

  draw-lt : (k : ℕ) (g : G) → (rng.draw 0 k g).0 < suc k
  draw-lt k g = omega (arith, le_hi 0 k g (omega arith))

  -- The loop never leaves the vector, and rearranges it by `jumps`.
  shuffle-jumps :
      (k : ℕ) (g : G) (p : List ℕ)
      → k < length p
      → (q : List ℕ) × (shuffle rng k g p ≡ some q)
        × (length q ≡ length p)
        × ((a : ℕ) → count a q ≡ count a p)
        × ((x : ℕ) → get_or q x 0 ≡ get_or p (jumps rng k g x) 0)
  unfolding shuffle jumps
  shuffle-jumps zero g p h = (p, refl, refl, λ a. refl, λ x. refl)
  shuffle-jumps (suc k) g p h =
      let j : ℕ = (rng.draw 0 k g).0 in
      let lt : j < suc k = draw-lt k g in
      let hj : j < length p = omega arith in
      let ne : suc k ≢ j = omega arith in
      let p' = swapped p (suc k) j in
      let same : length p' ≡ length p = length-swapped p (suc k) j h hj in
      let (q, e, len, counts, reads) = shuffle-jumps k (rng.draw 0 k g).1 p' (omega arith) in
      (
        q,
        rw (swap-swapped p (suc k) j h hj) e,
        len ∙ same,
        λ a. counts a ∙ count-swapped p (suc k) j h hj a ne,
        λ x. reads x ∙ get_or-swapped p (suc k) j h hj _ ne,
      )

  jumps_above : (k : ℕ) (g : G) (x : ℕ) → k < x → jumps rng k g x ≡ x
  unfolding jumps transpose
  jumps_above zero g x h = refl
  jumps_above (suc k) g x h = ground (arith, jumps_above k (rng.draw 0 k g).1 x, draw-lt k g)

  jumps_cycle :
      (k : ℕ) (g : G)
      → (x : ℕ) × (zs : List ℕ) × Chain (jumps rng k g) x zs x
        × OnceBelow (suc k) (x ∷ zs)
        × (suc (length zs) ≡ suc k)
  unfolding jumps
  jumps_cycle zero g = (0, [], refl, (λ a. ground arith), refl)
  jumps_cycle (suc k) g =
      let (j, g') = rng.draw 0 k g in
      let lt : j < suc k = draw-lt k g in
      let (x, zs, h, once, len) = jumps_cycle k g' in
      extend_cycle (jumps rng k g') j (suc k) (jumps_above k g' (suc k) (omega arith)) (omega arith)
        x zs h once len lt

  jumps_below : (k : ℕ) (g : G) (x : ℕ) → x < suc k → jumps rng k g x < suc k
  unfolding jumps transpose
  jumps_below zero g x h = h
  jumps_below (suc k) g x h =
      let g' = (rng.draw 0 k g).1 in
      elim (Bool-cases (x == suc k)) [
        | inl t ↦
            let same : x ≡ suc k = (==_iff x (suc k)).0 t in
            rw same (ground (arith, jumps_above k g' (suc k), draw-lt k g))
        | inr t ↦ ground (arith, jumps_below k g' x, draw-lt k g)
      ]

-- `build_single_cycle_permutation` stays in the vector and returns a permutation of `[0, count)`
-- that is a single cycle: following it from any of its nodes visits every node exactly once and then
-- is back at the start, provided that the indices fit the 32 bits of an entry.
pub build_single_cycle_permutation-cycle {ℓ} :
    {G : Type ℓ} (rng : Rng G)
    → IsUniform rng
    → (count seed s : ℕ) → count ≤ 2 ^ 32
    → s < count
    → (perm : List ℕ) × (build_single_cycle_permutation rng count seed ≡ some perm)
      × (length perm ≡ count)
      × OnceBelow count perm
      × OnceBelow count (orbit (λ x. get_or perm x 0) s count)
      × (after (λ x. get_or perm x 0) s count ≡ s)
unfolding build_single_cycle_permutation
build_single_cycle_permutation-cycle rng uniform zero seed s fits lt = elim lt [ ]
build_single_cycle_permutation-cycle rng uniform (suc k) seed s fits lt =
    let g = rng.seeded seed in
    let p = identity_from (suc k) 0 in
    let (q, e, len, counts, reads) =
      shuffle-jumps rng uniform k g p (rw (length-identity_from (suc k) 0) (omega arith)) in
    let (x, zs, h, once, size) = jumps_cycle rng uniform k g in
    let agree : (a : ℕ) → a < suc k → get_or q a 0 ≡ jumps rng k g a = λ a ha.
      reads a
      ∙ get_or-identity_from (suc k) 0 _ (omega arith) (jumps_below rng uniform k g a ha)
      ∙ add.zero _ in
    let below : All (λ z. z < suc k) (x ∷ zs) =
      All-lt (suc k) (x ∷ zs) (λ a. omega (arith, once a)) in
    let chain : Chain (λ a. get_or q a 0) x zs x =
      Chain-congr (jumps rng k g) (λ a. get_or q a 0) (suc k) x zs x agree below.0 below.1 h in
    let (visits, back) = cycle_visits (λ a. get_or q a 0) (suc k) x zs s chain once size lt in
    (
      q,
      e,
      len ∙ length-identity_from (suc k) 0,
      (λ a. ground (arith, counts a, count-identity_from (suc k) 0 a)),
      visits,
      back,
    )
