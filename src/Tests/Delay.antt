-- ===== src/Tests/Delay.antt =====
-- latency_bench.cpp on an array of four nodes.
use mathlib.Core.List.{map}
use llm_river.Base.Counting.{OnceBelow}
use llm_river.Base.Int.{pos}
use llm_river.Base.Run.{done}
use llm_river.Base.{ℕ, ◌/◌, ◌≤◌, ◌<◌, ◌≡◌, refl, sym, Option, some, List, [], ◌∷◌, arith, All}
use llm_river.Chase.Cycle.{orbit, after}
use llm_river.Chase.{next}
use llm_river.Clock.{repeat, sub_u64}
use llm_river.Latency.Bench.{build_chase_array-cycle, run_latency_bench_done, IsMeasured}
use llm_river.Latency.Measure.{
  measure_dependent_latency_lem, start_cursors_lem, measure_mlp_bandwidth_lem,
}
use llm_river.Latency.{
  chase_count, build_chase_array, chase_pass, measure_dependent_latency, start_cursors,
  streams_pass, bandwidth_of, measure_mlp_bandwidth, run_latency_bench,
}
use llm_river.Report.Structs.{LatencyBenchResult}
use llm_river.Tests.Given.{counting, counting-IsUniform, thousandths, ticking, ticking-TimeIsUp}

abbrev four_nodes : List ℕ
four_nodes = 0 ∷ 0 ∷ 0 ∷ 0 ∷ []

abbrev allocate : ℕ → Option (List ℕ)
allocate n = some four_nodes

chase_count_4 : chase_count 256 ≡ 4
unfolding chase_count
chase_count_4 = refl

build_chase_array-cycle_example :
    (arr : List ℕ) × (build_chase_array counting allocate 256 ≡ some arr)
    × (2 ≤ chase_count 256)
    × OnceBelow (chase_count 256) (orbit (next arr) 1 (chase_count 256))
    × (after (next arr) 1 (chase_count 256) ≡ 1)
build_chase_array-cycle_example =
    build_chase_array-cycle counting counting-IsUniform allocate 256 four_nodes 1 (omega arith) refl
      (sym chase_count_4) (omega (arith, chase_count_4))

abbrev ring : List ℕ
ring = 1 ∷ 2 ∷ 3 ∷ 0 ∷ []

measure_dependent_latency_lem_example :
    (measure_dependent_latency thousandths 4 ticking ring (pos 1)
      ≡ some (
          thousandths.div
            (thousandths.of_ℕ (sub_u64 (ticking 3) (ticking 0)))
            (thousandths.of_ℕ 128)))
    × ((repeat 2 (chase_pass ring) (record { cur = 0; hops = 0 })).cur ≡ after (next ring) 0 128)
measure_dependent_latency_lem_example =
    measure_dependent_latency_lem thousandths 4 ticking ring (pos 1) 1 ticking-TimeIsUp
      (omega arith)

start_cursors_lem_example :
    (start_cursors 10 4 4 0 ≡ 0 ∷ 2 ∷ 4 ∷ 6 ∷ [])
    × (1 ≤ 10 / 4)
    × All (λ c. c < 10) (start_cursors 10 4 4 0)
start_cursors_lem_example = start_cursors_lem 10 4 (omega arith) (omega arith) (omega arith)

measure_mlp_bandwidth_lem_example :
    (measure_mlp_bandwidth thousandths 4 ticking ring 4 2 (pos 1)
      ≡ some (bandwidth_of thousandths 64 (sub_u64 (ticking 3) (ticking 0))))
    × ((repeat 2
          (streams_pass ring 2)
          (record { cursors = start_cursors 4 2 2 0; hops = 0 })).cursors
        ≡ map (λ c. after (next ring) c 32) (start_cursors 4 2 2 0))
measure_mlp_bandwidth_lem_example =
    measure_mlp_bandwidth_lem thousandths 4 ticking ring 4 2 (pos 1) 1 ticking-TimeIsUp
      (omega arith)

run_latency_bench_done_example :
    (r : LatencyBenchResult ℕ) × (run_latency_bench thousandths counting 4 allocate ticking
        (λ _. ticking)
        256
        (pos 4)
        (pos 1)
      ≡ done r)
    × IsMeasured thousandths 4
        (pos 4)
        (thousandths.div
          (thousandths.of_ℕ (sub_u64 (ticking 3) (ticking 0)))
          (thousandths.of_ℕ 128))
        r
run_latency_bench_done_example =
    run_latency_bench_done thousandths counting counting-IsUniform 4 allocate ticking (λ _. ticking)
      256 (pos 4) (pos 1) four_nodes 1 (λ _. 1) (omega arith) refl (sym chase_count_4)
      ticking-TimeIsUp (omega arith) (λ _. ticking-TimeIsUp) (λ _. omega arith)
