-- ===== src/Hugepage/Bench.antt =====
-- `run_hugepage_bench` of tools/roofline/src/hugepage_bench.cpp.
use mathlib.Core.Path.{subst}
use llm_river.Base.Int.{ℤ}
use llm_river.Base.Run.{done, ◌>>=◌}
use llm_river.Base.{
  ℕ, zero, suc, ◌∷◌, ◌++◌, ◌*◌, ◌/◌, ◌^◌, ◌≤◌, ◌<◌, Option, none, some, List, [], ◌≡◌, refl, ap,
  ◌∙◌, arith, length,
}
use llm_river.Chase.Wire.{wire_single_cycle-cycle}
use llm_river.Clock.{Clock, TimeIsUp, ms_to_ns}
use llm_river.Disk.{round_up}
use llm_river.Float.{Float}
use llm_river.Hugepage.Expected.{
  page_bytes, whole_pages, TimesUp, pass_bandwidth, comparison, expected,
}
use llm_river.Hugepage.Mapped.{left_mapped, all_unmapped}
use llm_river.Hugepage.Sequential.{measure_sequential_bandwidth_lem}
use llm_river.Hugepage.{
  zeros, MapCall, mmap, munmap, unmap, Outside, with_mappings, measure_sequential_bandwidth,
  percent_of, compare_pages, run_hugepage_bench,
}
use llm_river.Latency.Measure.{measure_dependent_latency_lem}
use llm_river.Latency.{node_bytes}
use llm_river.Random.{Rng, IsUniform}

length-zeros : (n : ℕ) → length (zeros n) ≡ n
length-zeros zero = refl
length-zeros (suc n) = ap suc (length-zeros n)

round_up-page_bytes :
    (v : ℕ)
    → 0 < v
    → v ≤ 2 ^ 38
    → (64 * (round_up v page_bytes / node_bytes) ≡ round_up v page_bytes)
      × (0 < round_up v page_bytes / node_bytes)
      × (round_up v page_bytes / node_bytes ≤ 2 ^ 32)
unfolding round_up
round_up-page_bytes v some_bytes small = (omega arith, omega arith, omega arith)

module _ {ℓ} {F : Type ℓ} (float : Float F) where
  sized_bandwidth :
      (fuel : ℕ) (clock : Clock) (duration_ms : ℤ) (n : ℕ)
      → TimeIsUp clock (clock 0) (ms_to_ns duration_ms) 1 n
      → n < fuel
      → (arr : List ℕ) (size : ℕ) → 64 * length arr ≡ size
      → measure_sequential_bandwidth float fuel clock arr size duration_ms
        ≡ some (pass_bandwidth float clock size n)
  sized_bandwidth fuel clock duration_ms n up enough arr size same =
      subst
        (λ m.
          measure_sequential_bandwidth float fuel clock arr m duration_ms
          ≡ some (pass_bandwidth float clock m n))
        same (measure_sequential_bandwidth_lem float fuel clock duration_ms n up enough arr).0

  compare_pages_done {κ} :
      {G : Type κ} (rng : Rng G)
      → IsUniform rng
      → (fuel : ℕ) (outside : Outside) (size huge : ℕ) (duration_ms : ℤ)
        (t : TimesUp outside duration_ms fuel)
      → 64 * (size / node_bytes) ≡ size
      → 0 < size / node_bytes
      → size / node_bytes ≤ 2 ^ 32
      → compare_pages float rng fuel outside size huge duration_ms
        ≡ done (comparison float outside size huge duration_ms fuel t)
  unfolding compare_pages percent_of
  compare_pages_done rng uniform fuel outside size huge duration_ms t whole some_node small =
      let count : ℕ = size / node_bytes in
      let room : count ≤ length (zeros count) = omega (arith, length-zeros count) in
      let (base_arr, base_wired, base_len, _, _) =
        wire_single_cycle-cycle rng uniform (zeros count) count 0xb45e1111 0 small room some_node in
      let (huge_arr, huge_wired, huge_len, _, _) =
        wire_single_cycle-cycle rng uniform (zeros count) count 0xb45e2222 0 small room some_node in
      let base_size : 64 * length base_arr ≡ size =
        omega (arith, base_len, length-zeros count, whole) in
      let huge_size : 64 * length huge_arr ≡ size =
        omega (arith, huge_len, length-zeros count, whole) in
      let (base_ns, _) =
        measure_dependent_latency_lem float fuel outside.base_latency_clock base_arr duration_ms
          t.base_hops t.base_latency_up t.base_hops_lt in
      let (huge_ns, _) =
        measure_dependent_latency_lem float fuel outside.huge_latency_clock huge_arr duration_ms
          t.huge_hops t.huge_latency_up t.huge_hops_lt in
      let base_gbs =
        sized_bandwidth fuel outside.base_seq_clock duration_ms t.base_passes t.base_seq_up
          t.base_passes_lt base_arr size base_size in
      let huge_gbs =
        sized_bandwidth fuel outside.huge_seq_clock duration_ms t.huge_passes t.huge_seq_up
          t.huge_passes_lt huge_arr size huge_size in
      rw (base_wired, huge_wired, base_ns, huge_ns, base_gbs, huge_gbs, compare_pages) refl

  with_mappings_done {κ} :
      {G : Type κ} (rng : Rng G)
      → IsUniform rng
      → (fuel : ℕ) (outside : Outside) (size : ℕ) (duration_ms : ℤ)
        (t : TimesUp outside duration_ms fuel)
      → 64 * (size / node_bytes) ≡ size
      → 0 < size / node_bytes
      → size / node_bytes ≤ 2 ^ 32
      → (base_mem huge_mem : Option ℕ)
      → with_mappings float rng fuel outside size duration_ms base_mem huge_mem
        ≡ done (
          expected float base_mem huge_mem outside size duration_ms fuel t,
          unmap size base_mem ++ unmap size huge_mem,
        )
  with_mappings_done rng uniform fuel outside size duration_ms t whole some_node few (some base)
        (some huge) =
      ap (λ r. r >>= λ x. done (x, munmap base size ∷ munmap huge size ∷ []))
        (compare_pages_done rng uniform fuel outside size huge duration_ms t whole some_node few)
  with_mappings_done rng uniform fuel outside size duration_ms t whole some_node few (some base)
        none =
      refl
  with_mappings_done rng uniform fuel outside size duration_ms t whole some_node few none huge =
      refl

  -- With random draws in their range, a footprint of 1 byte to 256 GB and every time up,
  -- `run_hugepage_bench` ends, whatever the two `mmap` give, and no mapping that they gave is left. The footprint is
  -- rounded up to whole pages of 2 MB. If both mappings are there, the result is the comparison of their
  -- latencies and bandwidths, with how many percent the second one gains on the first; it is confirmed
  -- if `confirmed_hugepage_bytes` finds bytes in the second one, and says that it is not otherwise. If
  -- one is missing, nothing has run, with the note that the comparison was skipped.
  pub run_hugepage_bench_done {κ} :
      {G : Type κ} (rng : Rng G)
      → IsUniform rng
      → (fuel : ℕ) (outside : Outside) (footprint_bytes : ℕ) (duration_ms : ℤ)
        (t : TimesUp outside duration_ms fuel)
      → 0 < footprint_bytes
      → footprint_bytes ≤ 2 ^ 38
      → let size = whole_pages footprint_bytes in
        (unmaps : List MapCall) × (run_hugepage_bench float rng fuel outside footprint_bytes
            duration_ms
          ≡ done (
            expected float outside.base_mem outside.huge_mem outside size duration_ms fuel t,
            mmap size outside.base_mem ∷ mmap size outside.huge_mem ∷ unmaps,
          ))
        × (left_mapped (mmap size outside.base_mem ∷ mmap size outside.huge_mem ∷ unmaps) [] ≡ [])
  unfolding run_hugepage_bench
  run_hugepage_bench_done rng uniform fuel outside bytes duration_ms t some_bytes small =
      let (whole, some_node, few) = round_up-page_bytes bytes some_bytes small in
      let size : ℕ = round_up bytes page_bytes in
      let rounded : size ≡ whole_pages bytes = unfold round_up in omega arith in
      let pages : ℕ = whole_pages bytes in
      (
        unmap pages outside.base_mem ++ unmap pages outside.huge_mem,
        ap
              (λ r. r >>= λ x.
                done (x.0, mmap size outside.base_mem ∷ mmap size outside.huge_mem ∷ x.1))
              (with_mappings_done rng uniform fuel outside size duration_ms t whole some_node few
                outside.base_mem outside.huge_mem)
            ∙ ap
                (λ s. done (
                  expected float outside.base_mem outside.huge_mem outside s duration_ms fuel t,
                  mmap s outside.base_mem
                      ∷ mmap s outside.huge_mem
                      ∷ (unmap s outside.base_mem ++ unmap s outside.huge_mem),
                ))
                rounded,
        all_unmapped pages outside.base_mem outside.huge_mem,
      )
