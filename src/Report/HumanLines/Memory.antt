-- ===== src/Report/HumanLines/Memory.antt =====
-- The lines of the report for people on the machine and its memory.
use llm_river.Base.{◌*◌, ◌/◌, Option, some, List, [], ◌∷◌, ◌++◌, if◌then◌else◌}
use llm_river.Plateau.{back}
use llm_river.Report.Print.{Format, Item, chars, string, double, int, uint, bool}
use llm_river.Report.Structs.{
  CpuInfo, ThreadScalingPoint, RamBenchResult, MlpPoint, LatencyBenchResult,
}
use llm_river.Report.Print.{section, speed}

module _ {ℓ} {F : Type ℓ} (format : Format F) where
  open format use {float}

  abbrev pub machine_lines : CpuInfo → List (List (Item F))
  machine_lines cpu =
      (chars "=== machine ===" ∷ [])
      ∷ (chars "  cpu: "
          ∷ string cpu.model_name
          ∷ chars " ("
          ∷ int cpu.logical_cpus
          ∷ chars " logical cpus)"
          ∷ [])
      ∷ (chars "  L1d/core: "
          ∷ uint (cpu.l1d_bytes_per_core / 1024)
          ∷ chars " KB   L2/core: "
          ∷ uint (cpu.l2_bytes_per_core / 1024)
          ∷ chars " KB   L3 total: "
          ∷ uint (cpu.l3_bytes_total / (1024 * 1024))
          ∷ chars " MB"
          ∷ [])
      ∷ (chars "  isa: avx2="
          ∷ bool cpu.has_avx2
          ∷ chars " avx512f="
          ∷ bool cpu.has_avx512f
          ∷ chars " avx512bw="
          ∷ bool cpu.has_avx512bw
          ∷ chars " avx512vnni="
          ∷ bool cpu.has_avx512vnni
          ∷ chars " avx512bf16="
          ∷ bool cpu.has_avx512_bf16
          ∷ [])
      ∷ (chars "  thp_available="
          ∷ bool cpu.thp_available
          ∷ chars " hugetlb_free_available="
          ∷ bool cpu.hugetlb_available
          ∷ [])
      ∷ []

  abbrev pub scaling_lines : List (ThreadScalingPoint F) → List (List (Item F))
  scaling_lines [] = []
  scaling_lines (p ∷ ps) =
      (chars "    "
        ∷ int p.threads
        ∷ chars " thread(s): "
        ∷ speed format p.aggregate_gbs
        ∷ chars " aggregate ("
        ∷ speed format p.per_thread_gbs
        ∷ chars "/thread)"
        ∷ [])
      ∷ scaling_lines ps

  abbrev pub write_lines :
      Option (ThreadScalingPoint F) → Option (ThreadScalingPoint F) → List (List (Item F))
  write_lines (some plain) (some nt) =
      (chars "  write (plain, RFO) at max threads: " ∷ speed format plain.aggregate_gbs ∷ [])
      ∷ (chars "  write (non-temporal, no RFO) at max threads: "
          ∷ speed format nt.aggregate_gbs
          ∷ [])
      ∷ (if float.lt (float.of_ℕ 0) plain.aggregate_gbs
          then (chars "  non-temporal gain: "
              ∷ double (
                  float.mul
                    (float.div (float.sub nt.aggregate_gbs plain.aggregate_gbs) plain.aggregate_gbs)
                    (float.of_ℕ 100))
              ∷ chars "%  ("
              ∷ section
              ∷ chars "III.3.2: RFO theory predicts up to ~2x)"
              ∷ [])
            ∷ []
          else [])
  write_lines _ _ = []

  abbrev pub ram_lines : RamBenchResult F → List (List (Item F))
  ram_lines r =
      []
      ∷ (chars "=== ram bandwidth (resistance: DRAM) ===" ∷ [])
      ∷ (chars "  single-thread read ceiling: "
          ∷ speed format r.single_thread_read_gbs
          ∷ chars "  ("
          ∷ section
          ∷ chars "III.1: expect this near the line-fill-buffer bound, not full DRAM bandwidth)"
          ∷ [])
      ∷ (chars "  read scaling:" ∷ [])
      ∷ (scaling_lines r.read_scaling
          ++ (chars "  saturation at "
              ∷ int r.read_saturation_threads
              ∷ chars " thread(s): "
              ∷ speed format r.read_saturation_gbs
              ∷ [])
            ∷ write_lines (back r.write_plain_scaling) (back r.write_nt_scaling))

  abbrev pub mlp_lines : List (MlpPoint F) → List (List (Item F))
  mlp_lines [] = []
  mlp_lines (p ∷ ps) =
      (chars "    " ∷ int p.streams ∷ chars " stream(s): " ∷ speed format p.bandwidth_gbs ∷ [])
      ∷ mlp_lines ps

  abbrev pub latency_lines : LatencyBenchResult F → List (List (Item F))
  latency_lines r =
      []
      ∷ (chars "=== random-access latency & implied concurrency ("
          ∷ section
          ∷ chars "III.1) ==="
          ∷ [])
      ∷ (chars "  dependent-chain latency: "
          ∷ double r.dependent_chain_latency_ns
          ∷ chars " ns/hop"
          ∷ [])
      ∷ (chars "  MLP scaling (bandwidth vs. independent in-flight streams):" ∷ [])
      ∷ (mlp_lines r.mlp_scaling
          ++ (chars "  plateau at "
              ∷ int r.mlp_plateau_streams
              ∷ chars " streams: "
              ∷ speed format r.mlp_plateau_bandwidth_gbs
              ∷ [])
            ∷ (chars "  implied outstanding requests at plateau: "
                ∷ double r.implied_outstanding_requests
                ∷ chars
                    "  (compare to ~10-16 line-fill-buffers/core cited in the analysis -- this is a Little's-Law proxy, not a PMU count)"
                ∷ [])
            ∷ [])
