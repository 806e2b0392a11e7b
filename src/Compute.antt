-- ===== src/Compute.antt =====
-- tools/roofline/src/compute_bench.cpp. The vector instructions are a parameter: a register is of any
-- type, and a kernel is what one instruction does to an accumulator at one vector of its buffers.
pub mod Lanes
pub mod Bench
use llm_river.Base.Int.{ℤ}
use llm_river.Base.Run.{Run, out_of_fuel, undefined, done, stopped, ◌>>=◌}
use llm_river.Base.{
  ℕ, zero, suc, ◌+◌, ◌-◌, ◌*◌, ◌/◌, ◌%◌, ◌^◌, Bool, true, false, ◌&&◌, Option, none, some, List, [],
  ◌∷◌, if◌then◌else◌, Bytes, codes,
}
use llm_river.Clock.{Clock, sub_u64, ms_to_ns, timed_loop}
use llm_river.Float.{Float}
use llm_river.Report.Structs.{ComputeBenchResult}
use llm_river.Text.{drop}

-- `float`, its conversion and the instructions on sixteen of them.
pub record Avx512f {ℓ} (S V : Type ℓ) : Type ℓ where
  pub one : S
  pub milli : S
  pub of_ℕ : ℕ → S
  pub add : S → S → S
  pub mul : S → S → S
  pub setzero_ps : V
  -- the load of the sixteen floats from an index on
  pub load_ps : List S → ℕ → V
  pub fmadd_ps : V → V → V → V

-- The instructions on sixty-four bytes.
pub record Avx512vnni {ℓ} (V : Type ℓ) : Type ℓ where
  pub setzero_si512 : V
  pub load_si512 : List ℕ → ℕ → V
  pub dpbusd_epi32 : V → V → V → V

-- `kFloats`, and `kBytes`
abbrev pub floats : ℕ
floats = 4096

abbrev pub vnni_bytes : ℕ
vnni_bytes = 4096

-- What the loop's state is: the eight accumulators and the passes made.
pub record Accumulated {ℓ} (V : Type ℓ) : Type ℓ where
  pub acc : List V
  pub passes : ℕ

module _ {ℓ} {V : Type ℓ} (step : ℕ → V → V) where
  -- `for (int j = 0; j < 8; ++j) …`, from accumulator `j` on; `step k` is the instruction at vector `k`.
  unfoldable pub each_lane : ℕ → ℕ → List V → List V
  each_lane i j [] = []
  each_lane i j (a ∷ acc) = step (i + j) a ∷ each_lane i (j + 1) acc

  -- `for (size_t i = 0; i < kVecs; i += 8) …`, with `left` groups to go
  unfoldable pub each_group : ℕ → ℕ → List V → List V
  unfolding each_lane
  each_group zero i acc = acc
  each_group (suc left) i acc = each_group left (i + 8) (each_lane i 0 acc)

  -- One pass over `vecs` vectors, a multiple of 8.
  unfoldable pub vector_pass : ℕ → Accumulated V → Accumulated V
  unfolding each_group
  vector_pass vecs s = record {
    acc = each_group (vecs / 8) 0 s.acc;
    passes = (s.passes + 1) % 2 ^ 64;
  }

abbrev pub eight {ℓ} : {V : Type ℓ} → V → List V
eight a = a ∷ a ∷ a ∷ a ∷ a ∷ a ∷ a ∷ a ∷ []

module _ {ℓ} {F : Type ℓ} (float : Float F) where
  open float use {of_ℕ, mul, div, lt}

  -- The rate of `total` operations in `elapsed` ns, in 1e9 a second.
  unfoldable pub rate : F → ℕ → F
  rate total elapsed =
      let giga = of_ℕ 1_000_000_000 in
      let seconds = div (of_ℕ elapsed) giga in
      if lt (of_ℕ 0) seconds then div (div total giga) seconds else of_ℕ 0

  -- The timed loop that both kernels are; `none` is too little fuel. Reading 0 of the clock is the
  -- start, and the reading after the loop is the end: the passes and the time between.
  unfoldable pub timed_passes {κ} :
      {V : Type κ} → ℕ → Clock → (ℕ → V → V) → ℕ → V → ℤ → Option (ℕ × ℕ)
  unfolding timed_loop vector_pass ms_to_ns sub_u64
  timed_passes fuel clock step vecs zeroed duration_ms =
      elim (timed_loop clock (clock 0) (ms_to_ns duration_ms) (vector_pass step vecs) fuel 1
        (record { acc = eight zeroed; passes = 0 })) [
          | none ↦ none
          | some (s, i) ↦ some (s.passes, sub_u64 (clock i) (clock 0))
        ]

  -- `buf[i] = 1.0f + static_cast<float>(i % 7) * 1e-3f`, with `left` entries to go
  unfoldable pub fill_floats {κ} : {S V : Type κ} → Avx512f S V → ℕ → ℕ → List S
  fill_floats avx zero i = []
  fill_floats avx (suc left) i =
      avx.add avx.one (avx.mul (avx.of_ℕ (i % 7)) avx.milli) ∷ fill_floats avx left (i + 1)

  unfoldable pub fma_step {κ} : {S V : Type κ} → Avx512f S V → List S → ℕ → V → V
  fma_step avx buf k a = let v = avx.load_ps buf (k * 16) in avx.fmadd_ps v v a

  unfoldable pub measure_fp32_fma {κ} : {S V : Type κ} → Avx512f S V → ℕ → Clock → ℤ → Option F
  unfolding timed_passes fill_floats fma_step rate
  measure_fp32_fma avx fuel clock duration_ms =
      let buf = fill_floats avx floats 0 in
      elim (timed_passes fuel clock (fma_step avx buf) (floats / 16) avx.setzero_ps duration_ms) [
        | none ↦ none
        | some (passes, elapsed) ↦
            some (rate (mul (mul (of_ℕ passes) (of_ℕ floats)) (of_ℕ 2)) elapsed)
      ]

  -- The bytes of `a`, and of `b` in two's complement, with `left` entries to go
  unfoldable pub fill_a : ℕ → ℕ → List ℕ
  fill_a zero i = []
  fill_a (suc left) i = i % 128 ∷ fill_a left (i + 1)

  unfoldable pub fill_b : ℕ → ℕ → List ℕ
  fill_b zero i = []
  fill_b (suc left) i = (i % 64 + 256 - 32) % 256 ∷ fill_b left (i + 1)

  unfoldable pub vnni_step {κ} : {V : Type κ} → Avx512vnni V → List ℕ → List ℕ → ℕ → V → V
  vnni_step avx a b k acc =
      avx.dpbusd_epi32 acc (avx.load_si512 a (k * 64)) (avx.load_si512 b (k * 64))

  unfoldable pub measure_int8_vnni {κ} : {V : Type κ} → Avx512vnni V → ℕ → Clock → ℤ → Option F
  unfolding timed_passes fill_a fill_b vnni_step rate
  measure_int8_vnni avx fuel clock duration_ms =
      let step = vnni_step avx (fill_a vnni_bytes 0) (fill_b vnni_bytes 0) in
      elim (timed_passes fuel clock step (vnni_bytes / 64) avx.setzero_si512 duration_ms) [
        | none ↦ none
        | some (passes, elapsed) ↦
            some (rate (mul (mul (of_ℕ passes) (of_ℕ (vnni_bytes / 64))) (of_ℕ 128)) elapsed)
      ]

-- The build and the machine: whether `__AVX512F__` and `__AVX512VNNI__` are defined,
-- `__builtin_cpu_supports`, whether the allocations of each kernel succeed, and the clocks.
pub record Machine : Type 0 where
  pub built_avx512f : Bool
  pub built_avx512vnni : Bool
  pub supports : Bytes → Bool
  pub room_for_floats : Bool
  pub room_for_bytes : Bool
  pub fma_clock : Clock
  pub vnni_clock : Clock

-- `if (wanted) …`: what the bench makes available, and its rate; the buffers are not looked at for null.
abbrev pub if_wanted {ℓ} : {F : Type ℓ} → F → Bool → Bool → Option F → Run (Bool × F)
if_wanted nought false room measured = done (false, nought)
if_wanted nought true false measured = stopped undefined
if_wanted nought true true none = stopped out_of_fuel
if_wanted nought true true (some r) = done (true, r)

abbrev pub compute_result {ℓ} : {F : Type ℓ} → Bool × F → Bool × F → ComputeBenchResult F
compute_result fma vnni = record {
  fp32_fma_available = fma.0;
  fp32_fma_gflops = fma.1;
  int8_vnni_available = vnni.0;
  int8_vnni_gops = vnni.1;
}

abbrev pub wants_fma : Machine → Bool
wants_fma m = m.built_avx512f && m.supports (codes "avx512f")

abbrev pub wants_vnni : Machine → Bool
wants_vnni m = m.built_avx512vnni && m.supports (codes "avx512vnni")

unfoldable pub run_compute_bench {ℓ κ μ} :
    {F : Type ℓ}
    → Float F
    → {S V : Type κ} → Avx512f S V
    → {W : Type μ} → Avx512vnni W
    → ℕ
    → Machine
    → ℤ
    → Run (ComputeBenchResult F)
unfolding measure_fp32_fma measure_int8_vnni
run_compute_bench float avx vnni fuel m duration_ms = do
  f ←
      if_wanted (float.of_ℕ 0) (wants_fma m) m.room_for_floats
        (measure_fp32_fma float avx fuel m.fma_clock duration_ms)
  v ←
      if_wanted (float.of_ℕ 0) (wants_vnni m) m.room_for_bytes
        (measure_int8_vnni float vnni fuel m.vnni_clock duration_ms)
  done (compute_result f v)
