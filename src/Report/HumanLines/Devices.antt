-- ===== src/Report/HumanLines/Devices.antt =====
-- The lines of the report for people on the disk, the processor and huge pages.
use llm_river.Base.{◌*◌, ◌/◌, not, List, [], ◌∷◌, ◌++◌, if◌then◌else◌, Bytes}
use llm_river.Report.Print.{Format, Item, chars, string, double, uint, bool}
use llm_river.Report.Structs.{DiskBenchResult, ComputeBenchResult, HugepageBenchResult}
use llm_river.Report.Print.{section, speed}
use llm_river.Report.WriteJson.{is_empty}

-- A note has a line if it is not empty.
abbrev pub note_lines {ℓ} : {F : Type ℓ} → Bytes → List (List (Item F))
note_lines note = if not (is_empty note) then (chars "  note: " ∷ string note ∷ []) ∷ [] else []

module _ {ℓ} {F : Type ℓ} (format : Format F) where
  open format use {float}

  abbrev pub disk_lines : DiskBenchResult F → List (List (Item F))
  disk_lines r =
      []
      ∷ (chars "=== disk (resistance: storage) ===" ∷ [])
      ∷ (chars "  file: "
          ∷ string r.file_path
          ∷ chars "  ("
          ∷ uint (r.file_size_bytes / (1024 * 1024))
          ∷ chars " MB, o_direct="
          ∷ bool r.used_o_direct
          ∷ chars ")"
          ∷ [])
      ∷ (note_lines r.note
          ++ (chars "  sequential read: " ∷ speed format r.sequential_read_gbs ∷ [])
            ∷ (chars "  random 4K read: "
                ∷ double r.random4k_iops
                ∷ chars " IOPS, "
                ∷ double r.random4k_bandwidth_mbs
                ∷ chars " MB/s, "
                ∷ double r.random4k_avg_latency_us
                ∷ chars " us avg latency"
                ∷ [])
            ∷ (chars "  ("
                ∷ section
                ∷ chars "I.2: a 40GB model over this sequential link would decode at "
                ∷ double (float.div r.sequential_read_gbs (float.of_ℕ 40))
                ∷ chars " tok/s if every token required reading the whole model)"
                ∷ [])
            ∷ [])

  abbrev pub compute_lines : ComputeBenchResult F → List (List (Item F))
  compute_lines r =
      []
      ∷ (chars "=== compute (resistance: none -- this is the abundant resource per "
          ∷ section
          ∷ chars "V.1) ==="
          ∷ [])
      ∷ ((if r.fp32_fma_available
            then (chars "  AVX-512 FP32 FMA: "
                ∷ double r.fp32_fma_gflops
                ∷ chars " GFLOP/s (L1-resident)"
                ∷ [])
              ∷ []
            else (chars "  AVX-512 FP32 FMA: not available on this build/CPU" ∷ []) ∷ [])
          ++ (if r.int8_vnni_available
              then (chars "  AVX-512 VNNI INT8: "
                  ∷ double r.int8_vnni_gops
                  ∷ chars " GOP/s (L1-resident)"
                  ∷ [])
                ∷ []
              else (chars "  AVX-512 VNNI INT8: not available on this build/CPU" ∷ []) ∷ []))

  abbrev pub compared_lines : HugepageBenchResult F → List (List (Item F))
  compared_lines r =
      (chars "  4K-page latency: " ∷ double r.baseline_4k_latency_ns ∷ chars " ns/hop" ∷ [])
      ∷ (chars "  hugepage-requested latency: "
          ∷ double r.hugepage_latency_ns
          ∷ chars " ns/hop (confirmed backed by 2MB pages: "
          ∷ bool r.hugepage_confirmed
          ∷ chars ")"
          ∷ [])
      ∷ (chars "  latency reduction (random access): "
          ∷ double r.latency_reduction_pct
          ∷ chars "%"
          ∷ [])
      ∷ (chars "  4K-page sequential: " ∷ double r.baseline_4k_seq_gbs ∷ chars " GB/s" ∷ [])
      ∷ (chars "  hugepage sequential: " ∷ double r.hugepage_seq_gbs ∷ chars " GB/s" ∷ [])
      ∷ (chars "  gain (sequential streaming): " ∷ double r.seq_gain_pct ∷ chars "%" ∷ [])
      ∷ (chars "  ^ LLM weight streaming is sequential; use that number, not the" ∷ [])
      ∷ (chars "    random-access one, to predict decode speedup." ∷ [])
      ∷ note_lines r.note

  abbrev pub hugepage_lines : HugepageBenchResult F → List (List (Item F))
  hugepage_lines r =
      []
      ∷ (chars "=== TLB / hugepage effect (" ∷ section ∷ chars "III.3.1) ===" ∷ [])
      ∷ (if not r.ran then (chars "  skipped: " ∷ string r.note ∷ []) ∷ [] else compared_lines r)
