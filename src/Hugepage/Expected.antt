-- ===== src/Hugepage/Expected.antt =====
-- What the result of `run_hugepage_bench` of tools/roofline/src/hugepage_bench.cpp is to be, from the readings
-- of the clocks and what /proc/self/smaps confirms.
use llm_river.Base.Int.{ℤ}
use llm_river.Base.{
  ℕ, suc, true, false, ltb, if◌then◌else◌, codes, ◌++◌, ◌-◌, ◌+◌, ◌*◌, ◌/◌, ◌%◌, ◌^◌, ◌<◌, Option,
  none, some, [],
}
use llm_river.Clock.{Clock, TimeIsUp, ms_to_ns, sub_u64}
use llm_river.Float.{Float}
use llm_river.Hugepage.Sequential.{streamed_rate}
use llm_river.Hugepage.Vmas.{confirmed_hugepage_bytes}
use llm_river.Hugepage.{Outside}
use llm_river.Report.Structs.{HugepageBenchResult}

abbrev pub page_bytes : ℕ
page_bytes = 2 * 1024 * 1024

-- A footprint in whole pages of 2 MB, the last one perhaps begun.
abbrev pub whole_pages : ℕ → ℕ
whole_pages bytes = (bytes + (page_bytes - 1)) / page_bytes * page_bytes

-- The time of each measurement is up, within the fuel, some whole passes after its first.
pub record TimesUp (outside : Outside) (duration_ms : ℤ) (fuel : ℕ) : Type 0 where
  pub base_hops : ℕ
  pub huge_hops : ℕ
  pub base_passes : ℕ
  pub huge_passes : ℕ
  pub base_latency_up :
      TimeIsUp outside.base_latency_clock
        (outside.base_latency_clock 0)
        (ms_to_ns duration_ms)
        1
        base_hops
  pub huge_latency_up :
      TimeIsUp outside.huge_latency_clock
        (outside.huge_latency_clock 0)
        (ms_to_ns duration_ms)
        1
        huge_hops
  pub base_seq_up :
      TimeIsUp outside.base_seq_clock
        (outside.base_seq_clock 0)
        (ms_to_ns duration_ms)
        1
        base_passes
  pub huge_seq_up :
      TimeIsUp outside.huge_seq_clock
        (outside.huge_seq_clock 0)
        (ms_to_ns duration_ms)
        1
        huge_passes
  pub base_hops_lt : base_hops < fuel
  pub huge_hops_lt : huge_hops < fuel
  pub base_passes_lt : base_passes < fuel
  pub huge_passes_lt : huge_passes < fuel

module _ {ℓ} {F : Type ℓ} (float : Float F) where
  -- The latency of `n + 1` passes of 64 hops, by a clock read before them and after each.
  abbrev pub hop_latency : Clock → ℕ → F
  hop_latency clock n =
      float.div (float.of_ℕ (sub_u64 (clock (n + 2)) (clock 0))) (float.of_ℕ (64 * suc n % 2 ^ 64))

  -- The bandwidth of `n + 1` passes over `size` bytes.
  abbrev pub pass_bandwidth : Clock → ℕ → ℕ → F
  pass_bandwidth clock size n =
      streamed_rate float (suc n * size % 2 ^ 64) (sub_u64 (clock (n + 2)) (clock 0))

  -- So many hundredths of `base`; 0.0 of a base that is not positive.
  abbrev pub hundredths : F → F → F
  hundredths difference base =
      if float.lt (float.of_ℕ 0) base
      then float.mul (float.div difference base) (float.of_ℕ 100)
      else float.of_ℕ 0

  -- What the bench says of mappings of `size` bytes that it has compared.
  abbrev pub comparison :
      (outside : Outside) (size huge : ℕ) (duration_ms : ℤ) (fuel : ℕ)
      → TimesUp outside duration_ms fuel
      → HugepageBenchResult F
  comparison outside size huge duration_ms fuel t =
      let confirmed = confirmed_hugepage_bytes outside.smaps huge ((huge + size) % 2 ^ 64) in
      let base_ns = hop_latency outside.base_latency_clock t.base_hops in
      let huge_ns = hop_latency outside.huge_latency_clock t.huge_hops in
      let base_gbs = pass_bandwidth outside.base_seq_clock size t.base_passes in
      let huge_gbs = pass_bandwidth outside.huge_seq_clock size t.huge_passes in
      record {
        ran = true;
        note =
            if ltb 0 confirmed
            then []
            else codes "MADV_HUGEPAGE was requested but /proc/self/smaps shows 0 "
              ++ codes "AnonHugePages -- the kernel did not actually back this mapping "
              ++ codes "with 2MB pages (common in small/fragmented-memory sandboxes). "
              ++ codes "The 'hugepage' numbers below do not reflect a real hugepage "
              ++ codes "benefit in that case.";
        footprint_bytes = size;
        baseline_4k_latency_ns = base_ns;
        hugepage_latency_ns = huge_ns;
        hugepage_confirmed = ltb 0 confirmed;
        latency_reduction_pct = hundredths (float.sub base_ns huge_ns) base_ns;
        baseline_4k_seq_gbs = base_gbs;
        hugepage_seq_gbs = huge_gbs;
        seq_gain_pct = hundredths (float.sub huge_gbs base_gbs) base_gbs;
      }

  -- What the bench says if a mapping is missing.
  abbrev pub no_comparison : ℕ → HugepageBenchResult F
  no_comparison size = record {
    ran = false;
    note = codes "mmap failed, skipping hugepage comparison";
    footprint_bytes = size;
    baseline_4k_latency_ns = float.of_ℕ 0;
    hugepage_latency_ns = float.of_ℕ 0;
    hugepage_confirmed = false;
    latency_reduction_pct = float.of_ℕ 0;
    baseline_4k_seq_gbs = float.of_ℕ 0;
    hugepage_seq_gbs = float.of_ℕ 0;
    seq_gain_pct = float.of_ℕ 0;
  }

  -- What the bench says, by what the two `mmap` gave.
  abbrev pub expected :
      Option ℕ
      → Option ℕ
      → (outside : Outside) (size : ℕ) (duration_ms : ℤ) (fuel : ℕ)
      → TimesUp outside duration_ms fuel
      → HugepageBenchResult F
  expected (some base) (some huge) outside size duration_ms fuel t =
      comparison outside size huge duration_ms fuel t
  expected (some base) none outside size duration_ms fuel t = no_comparison size
  expected none huge outside size duration_ms fuel t = no_comparison size
