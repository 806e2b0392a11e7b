-- ===== src/Compute/Bench.antt =====
-- `run_compute_bench` of tools/roofline/src/compute_bench.cpp.
use mathlib.Core.Path.{ap₂}
use llm_river.Base.Int.{ℤ}
use llm_river.Base.Run.{done, ◌>>=◌}
use llm_river.Base.{
  ℕ, zero, suc, ◌+◌, ◌/◌, ◌&&◌, codes, ◌%◌, ◌^◌, ◌<◌, Bool, true, false, some, ◌≡◌, refl, arith,
  if◌then◌else◌,
}
use llm_river.Clock.{Clock, TimeIsUp, ms_to_ns, sub_u64, repeat, timed_loop-repeat}
use llm_river.Compute.{
  Avx512f, Avx512vnni, floats, vnni_bytes, Accumulated, vector_pass, eight, rate, timed_passes,
  fill_floats, fma_step, measure_fp32_fma, fill_a, fill_b, vnni_step, measure_int8_vnni, Machine,
  if_wanted, wants_fma, wants_vnni, run_compute_bench, compute_result,
}
use llm_river.Float.{Float}

repeat-vector_pass {ℓ} :
    {V : Type ℓ} (step : ℕ → V → V) (vecs m : ℕ) (s : Accumulated V)
    → s.passes < 2 ^ 64
    → (repeat m (vector_pass step vecs) s).passes ≡ (s.passes + m) % 2 ^ 64
unfolding vector_pass
repeat-vector_pass step vecs zero s h = omega arith
repeat-vector_pass step vecs (suc m) s h =
    omega (arith, repeat-vector_pass step vecs m (vector_pass step vecs s) (omega arith))

-- So many operations in `elapsed` ns, in 1e9 a second; 0.0 if no time has passed.
abbrev per_second {ℓ} : {F : Type ℓ} → Float F → F → ℕ → F
per_second float total elapsed =
    let seconds = float.div (float.of_ℕ elapsed) (float.of_ℕ 1_000_000_000) in
    if float.lt (float.of_ℕ 0) seconds
    then float.div (float.div total (float.of_ℕ 1_000_000_000)) seconds
    else float.of_ℕ 0

-- `passes` passes over 4096 floats make two operations on each of them.
abbrev pub fma_rate {ℓ} : {F : Type ℓ} → Float F → ℕ → ℕ → F
fma_rate float passes elapsed =
    per_second float (float.mul (float.mul (float.of_ℕ passes) (float.of_ℕ 4096)) (float.of_ℕ 2))
      elapsed

-- `passes` passes over 4096 bytes make 128 operations on each of their 64 vectors.
abbrev pub vnni_rate {ℓ} : {F : Type ℓ} → Float F → ℕ → ℕ → F
vnni_rate float passes elapsed =
    per_second float (float.mul (float.mul (float.of_ℕ passes) (float.of_ℕ 64)) (float.of_ℕ 128))
      elapsed

module _ {ℓ} {F : Type ℓ} (float : Float F) (fuel : ℕ) (clock : Clock) (duration_ms : ℤ) (n : ℕ)
    (up : TimeIsUp clock (clock 0) (ms_to_ns duration_ms) 1 n) (enough : n < fuel) where
  timed_passes_lem {κ} :
      {V : Type κ} (step : ℕ → V → V) (vecs : ℕ) (zeroed : V)
      → timed_passes float fuel clock step vecs zeroed duration_ms
        ≡ some (suc n % 2 ^ 64, sub_u64 (clock (n + 2)) (clock 0))
  unfolding timed_passes
  timed_passes_lem step vecs zeroed =
      let s : Accumulated _ = record { acc = eight zeroed; passes = 0 } in
      let passes : (repeat (suc n) (vector_pass step vecs) s).passes ≡ suc n % 2 ^ 64 =
        omega (arith, repeat-vector_pass step vecs (suc n) s (omega arith)) in
      let at : 1 + suc n ≡ n + 2 = omega arith in
      rw
        (
          timed_loop-repeat clock (clock 0) (ms_to_ns duration_ms) (vector_pass step vecs) n 1 fuel
              s up enough,
          timed_passes,
        )
        (ap₂ (λ p i. some (p, sub_u64 (clock i) (clock 0))) passes at)

  measure_fp32_fma_lem {κ} :
      {S V : Type κ} (avx : Avx512f S V)
      → measure_fp32_fma float avx fuel clock duration_ms
        ≡ some (fma_rate float (suc n % 2 ^ 64) (sub_u64 (clock (n + 2)) (clock 0)))
  unfolding measure_fp32_fma rate
  measure_fp32_fma_lem avx =
      rw
        (
          timed_passes_lem (fma_step float avx (fill_floats float avx floats 0)) (floats / 16)
              avx.setzero_ps,
          measure_fp32_fma,
        )
        refl

  measure_int8_vnni_lem {κ} :
      {V : Type κ} (avx : Avx512vnni V)
      → measure_int8_vnni float avx fuel clock duration_ms
        ≡ some (vnni_rate float (suc n % 2 ^ 64) (sub_u64 (clock (n + 2)) (clock 0)))
  unfolding measure_int8_vnni rate
  measure_int8_vnni_lem avx =
      let step = vnni_step float avx (fill_a float vnni_bytes 0) (fill_b float vnni_bytes 0) in
      rw (timed_passes_lem step (vnni_bytes / 64) avx.setzero_si512, measure_int8_vnni) refl

both_wanted {ℓ} :
    {F : Type ℓ} (nought : F) (f v : Bool) (x y : F)
    → (if_wanted nought f true (some x) >>= λ a.
        if_wanted nought v true (some y) >>= λ b. done (compute_result a b))
      ≡ done (compute_result (f, if f then x else nought) (v, if v then y else nought))
both_wanted nought true true x y = refl
both_wanted nought true false x y = refl
both_wanted nought false true x y = refl
both_wanted nought false false x y = refl

-- With memory for the buffers and the time of both kernels up, `run_compute_bench` ends. Each kernel is
-- available exactly if the build has it (AVX-512F, AVX-512VNNI) and the processor supports it. Its rate
-- is then that of its operations in the elapsed time, in 1e9 a second: two on each of 4096 floats a pass,
-- or 128 on each of 64 vectors of bytes a pass; and 0 without it, or if no time has passed.
pub run_compute_bench_done {ℓ κ μ} :
    {F : Type ℓ} (float : Float F) {S V : Type κ} (avx : Avx512f S V) {W : Type μ}
    (vnni : Avx512vnni W) (fuel : ℕ) (machine : Machine) (duration_ms : ℤ) (m n : ℕ)
    → machine.room_for_floats ≡ true
    → machine.room_for_bytes ≡ true
    → TimeIsUp machine.fma_clock (machine.fma_clock 0) (ms_to_ns duration_ms) 1 m
    → m < fuel
    → TimeIsUp machine.vnni_clock (machine.vnni_clock 0) (ms_to_ns duration_ms) 1 n
    → n < fuel
    → run_compute_bench float avx vnni fuel machine duration_ms
      ≡ done (record {
        fp32_fma_available = machine.built_avx512f && machine.supports (codes "avx512f");
        fp32_fma_gflops =
            if machine.built_avx512f && machine.supports (codes "avx512f")
            then fma_rate float
                (suc m % 2 ^ 64)
                (sub_u64 (machine.fma_clock (m + 2)) (machine.fma_clock 0))
            else float.of_ℕ 0;
        int8_vnni_available = machine.built_avx512vnni && machine.supports (codes "avx512vnni");
        int8_vnni_gops =
            if machine.built_avx512vnni && machine.supports (codes "avx512vnni")
            then vnni_rate float
                (suc n % 2 ^ 64)
                (sub_u64 (machine.vnni_clock (n + 2)) (machine.vnni_clock 0))
            else float.of_ℕ 0;
      })
unfolding run_compute_bench
run_compute_bench_done float avx vnni fuel machine duration_ms m n room room' up enough up'
      enough' =
    rw
      (
        measure_fp32_fma_lem float fuel machine.fma_clock duration_ms m up enough avx,
        measure_int8_vnni_lem float fuel machine.vnni_clock duration_ms n up' enough' vnni,
        room,
        room',
      )
      (both_wanted (float.of_ℕ 0) (wants_fma machine) (wants_vnni machine) _ _)
