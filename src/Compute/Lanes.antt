-- ===== src/Compute/Lanes.antt =====
-- What the eight accumulators of tools/roofline/src/compute_bench.cpp gather.
use llm_river.Base.{
  ℕ, zero, suc, ◌+◌, ◌*◌, List, [], ◌∷◌, ◌++◌, ◌≡◌, refl, ap, ◌∙◌, sym, arith, ltb, if◌then◌else◌,
}
use llm_river.Base.Counting.{count, OnceBelow, count-append}
use llm_river.Compute.{each_lane, each_group}

-- Vector `j` of each of `n` groups of eight, the first of which begins at `i`.
abbrev pub every_eighth : ℕ → ℕ → ℕ → List ℕ
every_eighth zero i j = []
every_eighth (suc n) i j = (i + j) ∷ every_eighth n (i + 8) j

-- The vectors of all eight accumulators.
abbrev pub all_lanes : ℕ → List ℕ
all_lanes n =
    every_eighth n 0 0
    ++ (every_eighth n 0 1
        ++ (every_eighth n 0 2
            ++ (every_eighth n 0 3
                ++ (every_eighth n 0 4
                    ++ (every_eighth n 0 5 ++ (every_eighth n 0 6 ++ every_eighth n 0 7))))))

lanes_count :
    (n i a : ℕ)
    → count a (every_eighth n i 0)
        + count a (every_eighth n i 1)
        + count a (every_eighth n i 2)
        + count a (every_eighth n i 3)
        + count a (every_eighth n i 4)
        + count a (every_eighth n i 5)
        + count a (every_eighth n i 6)
        + count a (every_eighth n i 7)
      ≡ (if ltb a i then 0 else if ltb a (i + 8 * n) then 1 else 0)
lanes_count zero i a = ground arith
lanes_count (suc n) i a = ground (arith, lanes_count n (i + 8) a)

all_lanes-OnceBelow : (n : ℕ) → OnceBelow (8 * n) (all_lanes n)
all_lanes-OnceBelow n a =
    let split : count a (all_lanes n)
        ≡ count a (every_eighth n 0 0)
          + count a (every_eighth n 0 1)
          + count a (every_eighth n 0 2)
          + count a (every_eighth n 0 3)
          + count a (every_eighth n 0 4)
          + count a (every_eighth n 0 5)
          + count a (every_eighth n 0 6)
          + count a (every_eighth n 0 7) =
      omega (arith, count-append) in
    split ∙ lanes_count n 0 a ∙ from_zero (8 * n) a
  where
    from_zero :
        (m b : ℕ)
        → ◌≡◌ {A = ℕ}
            (if ltb b 0 then 0 else if ltb b (0 + m) then 1 else 0)
            (if ltb b m then 1 else 0)
    from_zero m b = ground arith

module _ {ℓ} {V : Type ℓ} (step : ℕ → V → V) where
  -- An accumulator after the instruction at each of some vectors, in their order.
  abbrev pub gather : List ℕ → V → V
  gather [] a = a
  gather (k ∷ ks) a = gather ks (step k a)

  -- Accumulator `j` gathers vector `j` of each group.
  abbrev pub gathered : ℕ → ℕ → ℕ → List V → List V
  gathered n i j [] = []
  gathered n i j (a ∷ acc) = gather (every_eighth n i j) a ∷ gathered n i (j + 1) acc

  gathered-each_lane :
      (n i j : ℕ) (acc : List V)
      → gathered n (i + 8) j (each_lane step i j acc) ≡ gathered (suc n) i j acc
  unfolding each_lane
  gathered-each_lane n i j [] = refl
  gathered-each_lane n i j (a ∷ acc) =
      ap (λ acc'. gather (every_eighth (suc n) i j) a ∷ acc') (gathered-each_lane n i (j + 1) acc)

  gathered_none : (i j : ℕ) (acc : List V) → gathered 0 i j acc ≡ acc
  gathered_none i j [] = refl
  gathered_none i j (a ∷ acc) = ap (◌∷◌ a) (gathered_none i (j + 1) acc)

  pub each_group-gathered : (n i : ℕ) (acc : List V) → each_group step n i acc ≡ gathered n i 0 acc
  unfolding each_group
  each_group-gathered zero i acc = sym (gathered_none i 0 acc)
  each_group-gathered (suc n) i acc =
      each_group-gathered n (i + 8) (each_lane step i 0 acc) ∙ gathered-each_lane n i 0 acc

  -- A pass over `n` groups of eight vectors gives each accumulator the instruction at its own vector of
  -- each group, in order, and no vector of the buffer is left out or taken twice.
  pub each_group_lem :
      (n : ℕ) (acc : List V)
      → (each_group step n 0 acc ≡ gathered n 0 0 acc) × OnceBelow (8 * n) (all_lanes n)
  each_group_lem n acc = (each_group-gathered n 0 acc, all_lanes-OnceBelow n)
