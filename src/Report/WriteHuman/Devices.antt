-- ===== src/Report/WriteHuman/Devices.antt =====
-- `write_human` of tools/roofline/src/report.cpp on the disk, the processor and huge pages.
use llm_river.Base.{◌*◌, ◌/◌, not, [], ◌∷◌, if◌then◌else◌}
use llm_river.Report.Print.{
  section, speed, Format, chars, string, double, uint, bool, Printing, ◌>>◌, when, say,
}
use llm_river.Report.Structs.{DiskBenchResult, ComputeBenchResult, HugepageBenchResult}
use llm_river.Report.WriteJson.{is_empty}

module _ {ℓ} {F : Type ℓ} (format : Format F) where
  open format use {float}

  unfoldable pub human_disk : DiskBenchResult F → Printing
  human_disk r = do
    say format (chars "\n=== disk (resistance: storage) ===\n" ∷ [])
    say format (
        chars "  file: "
        ∷ string r.file_path
        ∷ chars "  ("
        ∷ uint (r.file_size_bytes / (1024 * 1024))
        ∷ chars " MB, o_direct="
        ∷ bool r.used_o_direct
        ∷ chars ")\n"
        ∷ [])
    when (not (is_empty r.note)) (say format (chars "  note: " ∷ string r.note ∷ chars "\n" ∷ []))
    say format (chars "  sequential read: " ∷ speed format r.sequential_read_gbs ∷ chars "\n" ∷ [])
    say format (
        chars "  random 4K read: "
        ∷ double r.random4k_iops
        ∷ chars " IOPS, "
        ∷ double r.random4k_bandwidth_mbs
        ∷ chars " MB/s, "
        ∷ double r.random4k_avg_latency_us
        ∷ chars " us avg latency\n"
        ∷ [])
    say format (
        chars "  ("
        ∷ section
        ∷ chars "I.2: a 40GB model over this sequential link would decode at "
        ∷ double (float.div r.sequential_read_gbs (float.of_ℕ 40))
        ∷ chars " tok/s if every token required reading the whole model)\n"
        ∷ [])

  unfoldable pub human_compute : ComputeBenchResult F → Printing
  human_compute r = do
    say format (
        chars "\n=== compute (resistance: none -- this is the abundant resource per "
        ∷ section
        ∷ chars "V.1) ===\n"
        ∷ [])
    if r.fp32_fma_available
        then say format (
            chars "  AVX-512 FP32 FMA: "
            ∷ double r.fp32_fma_gflops
            ∷ chars " GFLOP/s (L1-resident)\n"
            ∷ [])
        else say format (chars "  AVX-512 FP32 FMA: not available on this build/CPU\n" ∷ [])
    if r.int8_vnni_available
        then say format (
            chars "  AVX-512 VNNI INT8: "
            ∷ double r.int8_vnni_gops
            ∷ chars " GOP/s (L1-resident)\n"
            ∷ [])
        else say format (chars "  AVX-512 VNNI INT8: not available on this build/CPU\n" ∷ [])

  unfoldable pub human_hugepage : HugepageBenchResult F → Printing
  human_hugepage r = do
    say format (chars "\n=== TLB / hugepage effect (" ∷ section ∷ chars "III.3.1) ===\n" ∷ [])
    if not r.ran then say format (chars "  skipped: " ∷ string r.note ∷ chars "\n" ∷ []) else (do
      say format
          (chars "  4K-page latency: " ∷ double r.baseline_4k_latency_ns ∷ chars " ns/hop\n" ∷ [])
      say format (
          chars "  hugepage-requested latency: "
          ∷ double r.hugepage_latency_ns
          ∷ chars " ns/hop (confirmed backed by 2MB pages: "
          ∷ bool r.hugepage_confirmed
          ∷ chars ")\n"
          ∷ [])
      say format (
          chars "  latency reduction (random access): "
          ∷ double r.latency_reduction_pct
          ∷ chars "%\n"
          ∷ [])
      say format
          (chars "  4K-page sequential: " ∷ double r.baseline_4k_seq_gbs ∷ chars " GB/s\n" ∷ [])
      say format
          (chars "  hugepage sequential: " ∷ double r.hugepage_seq_gbs ∷ chars " GB/s\n" ∷ [])
      say format
          (chars "  gain (sequential streaming): " ∷ double r.seq_gain_pct ∷ chars "%\n" ∷ [])
      say format (
          chars
            "  ^ LLM weight streaming is sequential; use that number, not the\n    random-access one, to predict decode speedup.\n"
          ∷ [])
      when (not (is_empty r.note))
          (say format (chars "  note: " ∷ string r.note ∷ chars "\n" ∷ [])))
