-- ===== src/Hugepage.antt =====
-- tools/roofline/src/hugepage_bench.cpp. The text of /proc/self/smaps and the addresses that `mmap` gives
-- are parameters. `round_up` and `measure_dependent_latency` are written there a second time, as in
-- disk_bench.cpp and latency_bench.cpp, and their models stand in Disk and Latency.
pub mod Vmas
pub mod Smaps
pub mod Confirmed
pub mod Sequential
pub mod Mapped
pub mod Expected
pub mod Bench
use llm_river.Base.Int.{ℤ}
use llm_river.Base.Run.{Run, out_of_fuel, undefined, done, ◌>>=◌, or_stop}
use llm_river.Base.{
  ℕ, zero, suc, ◌+◌, ◌-◌, ◌*◌, ◌/◌, ◌%◌, ◌^◌, Bool, true, false, not, ◌&&◌, Option, none, some,
  List, [], ◌∷◌, ◌++◌, ltb, leb, ◌==◌, if◌then◌else◌, get_or, Bytes, codes,
}
use llm_river.Chase.{wire_single_cycle}
use llm_river.Clock.{Clock, sub_u64, ms_to_ns, timed_loop}
use llm_river.Disk.{round_up}
use llm_river.Float.{Float}
use llm_river.Hugepage.Vmas.{confirmed_hugepage_bytes}
use llm_river.Latency.{node_bytes, measure_dependent_latency}
use llm_river.Random.{Rng}
use llm_river.Report.Structs.{HugepageBenchResult}
use llm_river.Text.{
  drop, take, substr, starts_with, find_char, lines, extract_u64, hex_value, strtoull_hex,
}

-- `for (size_t i = 0; i < words; i += 8) acc += p[i];`, where word 0 of node `i / 8` is its `next`, with the
-- padding behind it zero as `mmap` left it. The fuel `left` is no less than the rounds.
unfoldable pub sum_lines : List ℕ → ℕ → ℕ → ℕ → ℕ → ℕ
sum_lines arr zero words i acc = acc
sum_lines arr (suc left) words i acc =
    let rest = sum_lines arr left words (i + 8) ((acc + get_or arr (i / 8) 0) % 2 ^ 64) in
    if ltb i words then rest else acc

pub record Streamed : Type 0 where
  pub acc : ℕ
  pub bytes : ℕ

unfoldable pub stream_pass : List ℕ → ℕ → Streamed → Streamed
unfolding sum_lines
stream_pass arr size s = record {
  acc = sum_lines arr (size / 8) (size / 8) 0 s.acc;
  bytes = (s.bytes + size) % 2 ^ 64;
}

-- `mmap` of a size with what it gives, and `munmap`
pub data MapCall : Type 0 where
  mmap : ℕ → Option ℕ → MapCall
  munmap : ℕ → ℕ → MapCall

-- What the bench takes from outside: what the two `mmap` give, the clocks of the four measurements, and
-- /proc/self/smaps as it then is.
pub record Outside : Type 0 where
  pub base_mem : Option ℕ
  pub huge_mem : Option ℕ
  pub base_latency_clock : Clock
  pub huge_latency_clock : Clock
  pub base_seq_clock : Clock
  pub huge_seq_clock : Clock
  pub smaps : Bytes

-- `if (mem != MAP_FAILED) munmap(mem, size);`
abbrev pub unmap : ℕ → Option ℕ → List MapCall
unmap size none = []
unmap size (some addr) = munmap addr size ∷ []

abbrev pub skipped_note : Bytes
skipped_note = codes "mmap failed, skipping hugepage comparison"

abbrev pub unconfirmed_note : Bytes
unconfirmed_note =
    codes "MADV_HUGEPAGE was requested but /proc/self/smaps shows 0 "
    ++ codes "AnonHugePages -- the kernel did not actually back this mapping "
    ++ codes "with 2MB pages (common in small/fragmented-memory sandboxes). "
    ++ codes "The 'hugepage' numbers below do not reflect a real hugepage "
    ++ codes "benefit in that case."

-- `mmap` fills with zeros, which is node 0 in each `next`.
abbrev pub zeros : ℕ → List ℕ
zeros zero = []
zeros (suc n) = 0 ∷ zeros n

module _ {ℓ} {F : Type ℓ} (float : Float F) where
  open float use {of_ℕ, sub, mul, div, lt}

  -- Reading 0 of the clock is the start; the reading after the loop is the end.
  unfoldable pub measure_sequential_bandwidth : ℕ → Clock → List ℕ → ℕ → ℤ → Option F
  unfolding timed_loop stream_pass ms_to_ns sub_u64
  measure_sequential_bandwidth fuel clock arr size duration_ms =
      elim (timed_loop clock (clock 0) (ms_to_ns duration_ms) (stream_pass arr size) fuel 1
        (record { acc = 0; bytes = 0 })) [
          | none ↦ none
          | some (s, i) ↦
              let elapsed = sub_u64 (clock i) (clock 0) in
              some (if elapsed == 0 then of_ℕ 0 else div (of_ℕ s.bytes) (of_ℕ elapsed))
        ]

  -- `if (base > 0) (difference / base) * 100.0`, and 0.0 otherwise
  unfoldable pub percent_of : F → F → F
  percent_of difference base =
      if lt (of_ℕ 0) base then mul (div difference base) (of_ℕ 100) else of_ℕ 0

  abbrev pub skipped_result : ℕ → HugepageBenchResult F
  skipped_result size = record {
    ran = false;
    note = skipped_note;
    footprint_bytes = size;
    baseline_4k_latency_ns = of_ℕ 0;
    hugepage_latency_ns = of_ℕ 0;
    hugepage_confirmed = false;
    latency_reduction_pct = of_ℕ 0;
    baseline_4k_seq_gbs = of_ℕ 0;
    hugepage_seq_gbs = of_ℕ 0;
    seq_gain_pct = of_ℕ 0;
  }

  abbrev pub measured_result : ℕ → ℕ → F → F → F → F → HugepageBenchResult F
  measured_result size confirmed base_ns huge_ns base_gbs huge_gbs = record {
    ran = true;
    note = if ltb 0 confirmed then [] else unconfirmed_note;
    footprint_bytes = size;
    baseline_4k_latency_ns = base_ns;
    hugepage_latency_ns = huge_ns;
    hugepage_confirmed = ltb 0 confirmed;
    latency_reduction_pct = percent_of (sub base_ns huge_ns) base_ns;
    baseline_4k_seq_gbs = base_gbs;
    hugepage_seq_gbs = huge_gbs;
    seq_gain_pct = percent_of (sub huge_gbs base_gbs) base_gbs;
  }

  -- With both mappings there, up to the `munmap`s.
  unfoldable pub compare_pages {κ} :
      {G : Type κ} → Rng G → ℕ → Outside → ℕ → ℕ → ℤ → Run (HugepageBenchResult F)
  unfolding wire_single_cycle measure_dependent_latency measure_sequential_bandwidth
      confirmed_hugepage_bytes percent_of
  compare_pages rng fuel outside size huge_mem duration_ms = do
    let count = size / node_bytes
    base_arr ← or_stop undefined (wire_single_cycle rng (zeros count) count 0xb45e1111)
    huge_arr ← or_stop undefined (wire_single_cycle rng (zeros count) count 0xb45e2222)
    base_ns ←
        or_stop out_of_fuel
          (measure_dependent_latency float fuel outside.base_latency_clock base_arr duration_ms)
    huge_ns ←
        or_stop out_of_fuel
          (measure_dependent_latency float fuel outside.huge_latency_clock huge_arr duration_ms)
    base_gbs ←
        or_stop out_of_fuel
          (measure_sequential_bandwidth fuel outside.base_seq_clock base_arr size duration_ms)
    huge_gbs ←
        or_stop out_of_fuel
          (measure_sequential_bandwidth fuel outside.huge_seq_clock huge_arr size duration_ms)
    let confirmed = confirmed_hugepage_bytes outside.smaps huge_mem ((huge_mem + size) % 2 ^ 64)
    done (measured_result size confirmed base_ns huge_ns base_gbs huge_gbs)

  -- `if (base_mem == MAP_FAILED || huge_mem == MAP_FAILED) …`: what is mapped is unmapped.
  abbrev pub skip_comparison : ℕ → Option ℕ → Option ℕ → Run (HugepageBenchResult F × List MapCall)
  skip_comparison size base_mem huge_mem =
      done (skipped_result size, unmap size base_mem ++ unmap size huge_mem)

  -- The rest of the bench, by what the two `mmap` gave, and its calls of `munmap`.
  abbrev pub with_mappings {κ} :
      {G : Type κ}
      → Rng G
      → ℕ
      → Outside
      → ℕ
      → ℤ
      → Option ℕ
      → Option ℕ
      → Run (HugepageBenchResult F × List MapCall)
  with_mappings rng fuel outside size duration_ms (some base) (some huge) = do
    r ← compare_pages rng fuel outside size huge duration_ms
    done (r, munmap base size ∷ munmap huge size ∷ [])
  with_mappings rng fuel outside size duration_ms (some base) none =
      skip_comparison size (some base) none
  with_mappings rng fuel outside size duration_ms none huge = skip_comparison size none huge

  -- The result, and the calls of `mmap` and `munmap` in their order.
  unfoldable pub run_hugepage_bench {κ} :
      {G : Type κ} → Rng G → ℕ → Outside → ℕ → ℤ → Run (HugepageBenchResult F × List MapCall)
  unfolding round_up compare_pages
  run_hugepage_bench rng fuel outside footprint_bytes duration_ms = do
    let size = round_up footprint_bytes (2 * 1024 * 1024)
    r ← with_mappings rng fuel outside size duration_ms outside.base_mem outside.huge_mem
    done (r.0, mmap size outside.base_mem ∷ mmap size outside.huge_mem ∷ r.1)
