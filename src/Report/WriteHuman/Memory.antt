-- ===== src/Report/WriteHuman/Memory.antt =====
-- `write_human` of tools/roofline/src/report.cpp on the machine and its memory.
use llm_river.Base.{◌*◌, ◌/◌, Option, some, List, [], ◌∷◌}
use llm_river.Plateau.{back}
use llm_river.Report.Print.{
  section, speed, Format, chars, string, double, int, uint, bool, Printing, ◌>>◌, nothing, when,
  say,
}
use llm_river.Report.Structs.{
  CpuInfo, ThreadScalingPoint, RamBenchResult, MlpPoint, LatencyBenchResult,
}

module _ {ℓ} {F : Type ℓ} (format : Format F) where
  open format use {float}

  unfoldable pub human_machine : CpuInfo → Printing
  human_machine cpu = do
    say format (chars "=== machine ===\n" ∷ [])
    say format (
        chars "  cpu: "
        ∷ string cpu.model_name
        ∷ chars " ("
        ∷ int cpu.logical_cpus
        ∷ chars " logical cpus)\n"
        ∷ [])
    say format (
        chars "  L1d/core: "
        ∷ uint (cpu.l1d_bytes_per_core / 1024)
        ∷ chars " KB   "
        ∷ chars "L2/core: "
        ∷ uint (cpu.l2_bytes_per_core / 1024)
        ∷ chars " KB   "
        ∷ chars "L3 total: "
        ∷ uint (cpu.l3_bytes_total / (1024 * 1024))
        ∷ chars " MB\n"
        ∷ [])
    say format (
        chars "  isa: avx2="
        ∷ bool cpu.has_avx2
        ∷ chars " avx512f="
        ∷ bool cpu.has_avx512f
        ∷ chars " avx512bw="
        ∷ bool cpu.has_avx512bw
        ∷ chars " avx512vnni="
        ∷ bool cpu.has_avx512vnni
        ∷ chars " avx512bf16="
        ∷ bool cpu.has_avx512_bf16
        ∷ chars "\n"
        ∷ [])
    say format (
        chars "  thp_available="
        ∷ bool cpu.thp_available
        ∷ chars " hugetlb_free_available="
        ∷ bool cpu.hugetlb_available
        ∷ chars "\n"
        ∷ [])

  unfoldable pub human_scaling : List (ThreadScalingPoint F) → Printing
  human_scaling [] = nothing
  human_scaling (p ∷ ps) = do
    say format (
        chars "    "
        ∷ int p.threads
        ∷ chars " thread(s): "
        ∷ speed format p.aggregate_gbs
        ∷ chars " aggregate ("
        ∷ speed format p.per_thread_gbs
        ∷ chars "/thread)\n"
        ∷ [])
    human_scaling ps

  -- The gain of non-temporal over plain writes, if both sweeps have a point.
  unfoldable pub human_writes :
      Option (ThreadScalingPoint F) → Option (ThreadScalingPoint F) → Printing
  human_writes (some p) (some n) = do
    let plain = p.aggregate_gbs
    let nt = n.aggregate_gbs
    say format
        (chars "  write (plain, RFO) at max threads: " ∷ speed format plain ∷ chars "\n" ∷ [])
    say format (
        chars "  write (non-temporal, no RFO) at max threads: " ∷ speed format nt ∷ chars "\n" ∷ [])
    when (float.lt (float.of_ℕ 0) plain) (
        say format (
          chars "  non-temporal gain: "
          ∷ double (float.mul (float.div (float.sub nt plain) plain) (float.of_ℕ 100))
          ∷ chars "%"
          ∷ chars "  ("
          ∷ section
          ∷ chars "III.3.2: RFO theory predicts up to ~2x)\n"
          ∷ []))
  human_writes _ _ = nothing

  unfoldable pub human_ram : RamBenchResult F → Printing
  human_ram r = do
    say format (chars "\n=== ram bandwidth (resistance: DRAM) ===\n" ∷ [])
    say format (
        chars "  single-thread read ceiling: "
        ∷ speed format r.single_thread_read_gbs
        ∷ chars "  ("
        ∷ section
        ∷ chars "III.1: expect this near the line-fill-buffer bound, not full DRAM bandwidth)\n"
        ∷ [])
    say format (chars "  read scaling:\n" ∷ [])
    human_scaling r.read_scaling
    say format (
        chars "  saturation at "
        ∷ int r.read_saturation_threads
        ∷ chars " thread(s): "
        ∷ speed format r.read_saturation_gbs
        ∷ chars "\n"
        ∷ [])
    human_writes (back r.write_plain_scaling) (back r.write_nt_scaling)

  unfoldable pub human_mlp : List (MlpPoint F) → Printing
  human_mlp [] = nothing
  human_mlp (p ∷ ps) = do
    say format (
        chars "    "
        ∷ int p.streams
        ∷ chars " stream(s): "
        ∷ speed format p.bandwidth_gbs
        ∷ chars "\n"
        ∷ [])
    human_mlp ps

  unfoldable pub human_latency : LatencyBenchResult F → Printing
  human_latency r = do
    say format (
        chars "\n=== random-access latency & implied concurrency ("
        ∷ section
        ∷ chars "III.1) ===\n"
        ∷ [])
    say format (
        chars "  dependent-chain latency: "
        ∷ double r.dependent_chain_latency_ns
        ∷ chars " ns/hop\n"
        ∷ [])
    say format (chars "  MLP scaling (bandwidth vs. independent in-flight streams):\n" ∷ [])
    human_mlp r.mlp_scaling
    say format (
        chars "  plateau at "
        ∷ int r.mlp_plateau_streams
        ∷ chars " streams: "
        ∷ speed format r.mlp_plateau_bandwidth_gbs
        ∷ chars "\n"
        ∷ [])
    say format (
        chars "  implied outstanding requests at plateau: "
        ∷ double r.implied_outstanding_requests
        ∷ chars
            "  (compare to ~10-16 line-fill-buffers/core cited in the analysis -- this is a Little's-Law proxy, not a PMU count)\n"
        ∷ [])
