-- ===== src/Tests/Wiring.antt =====
-- chase.hpp at five nodes.
use llm_river.Base.{ℕ, ◌≡◌, refl, some, List, [], ◌∷◌, arith, length, get_or}
use llm_river.Base.Counting.{OnceBelow}
use llm_river.Chase.Cycle.{orbit, after}
use llm_river.Chase.Sattolo.{build_single_cycle_permutation-cycle}
use llm_river.Chase.Wire.{wire_single_cycle-cycle}
use llm_river.Chase.{
  build_single_cycle_permutation, wire_single_cycle, next, shuffle, identity_from, swap,
}
use llm_river.Tests.Given.{counting, counting-IsUniform}

permutation_of_five : build_single_cycle_permutation counting 5 1 ≡ some (3 ∷ 0 ∷ 4 ∷ 2 ∷ 1 ∷ [])
unfolding build_single_cycle_permutation shuffle identity_from swap
permutation_of_five = refl

build_single_cycle_permutation-cycle_example :
    (perm : List ℕ) × (build_single_cycle_permutation counting 5 1 ≡ some perm)
    × (length perm ≡ 5)
    × OnceBelow 5 perm
    × OnceBelow 5 (orbit (λ x. get_or perm x 0) 2 5)
    × (after (λ x. get_or perm x 0) 2 5 ≡ 2)
build_single_cycle_permutation-cycle_example =
    build_single_cycle_permutation-cycle counting counting-IsUniform 5 1 2 (omega arith)
      (omega arith)

abbrev six_nodes : List ℕ
six_nodes = 9 ∷ 9 ∷ 9 ∷ 9 ∷ 9 ∷ 7 ∷ []

wire_single_cycle-cycle_example :
    (wired : List ℕ) × (wire_single_cycle counting six_nodes 5 1 ≡ some wired)
    × (length wired ≡ 6)
    × OnceBelow 5 (orbit (next wired) 3 5)
    × (after (next wired) 3 5 ≡ 3)
wire_single_cycle-cycle_example =
    wire_single_cycle-cycle counting counting-IsUniform six_nodes 5 1 3 (omega arith) (omega arith)
      (omega arith)
