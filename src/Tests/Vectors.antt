-- ===== src/Tests/Vectors.antt =====
-- compute_bench.cpp with registers that only count.
use llm_river.Base.Counting.{OnceBelow}
use llm_river.Base.Int.{pos}
use llm_river.Base.Run.{done}
use llm_river.Base.{ℕ, ◌+◌, ◌*◌, ◌%◌, ◌^◌, ◌≡◌, refl, true, arith}
use llm_river.Clock.{sub_u64}
use llm_river.Compute.Bench.{run_compute_bench_done, fma_rate, vnni_rate}
use llm_river.Compute.Lanes.{each_group_lem, gathered, all_lanes}
use llm_river.Compute.{Avx512f, Avx512vnni, Machine, eight, each_group, run_compute_bench}
use llm_river.Tests.Given.{thousandths, ticking, ticking-TimeIsUp}

each_group_lem_example :
    (each_group (λ k a. a * 2 + k) 2 0 (eight 1) ≡ gathered (λ k a. a * 2 + k) 2 0 0 (eight 1))
    × OnceBelow 16 (all_lanes 2)
each_group_lem_example = each_group_lem (λ k a. a * 2 + k) 2 (eight 1)

abbrev pub singles : Avx512f ℕ ℕ
singles = record {
  one = 1000;
  milli = 1;
  of_ℕ = λ n. n * 1000;
  add = λ a b. a + b;
  mul = λ a b. a * b;
  setzero_ps = 0;
  load_ps = λ buf i. i;
  fmadd_ps = λ a b c. a * b + c;
}

abbrev pub quads : Avx512vnni ℕ
quads = record { setzero_si512 = 0; load_si512 = λ buf i. i; dpbusd_epi32 = λ c a b. a * b + c }

abbrev pub machine : Machine
machine = record {
  built_avx512f = true;
  built_avx512vnni = true;
  supports = λ feature. true;
  room_for_floats = true;
  room_for_bytes = true;
  fma_clock = ticking;
  vnni_clock = ticking;
}

run_compute_bench_done_example :
    run_compute_bench thousandths singles quads 4 machine (pos 1)
    ≡ done (record {
      fp32_fma_available = true;
      fp32_fma_gflops = fma_rate thousandths (2 % 2 ^ 64) (sub_u64 (ticking 3) (ticking 0));
      int8_vnni_available = true;
      int8_vnni_gops = vnni_rate thousandths (2 % 2 ^ 64) (sub_u64 (ticking 3) (ticking 0));
    })
run_compute_bench_done_example =
    run_compute_bench_done thousandths singles quads 4 machine (pos 1) 1 1 refl refl
      ticking-TimeIsUp (omega arith) ticking-TimeIsUp (omega arith)
