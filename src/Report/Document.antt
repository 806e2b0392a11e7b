-- ===== src/Report/Document.antt =====
-- The JSON documents that stand for the parts of a report, field by field, without the writer.
use llm_river.Base.Decimal.{show_ℕ, show_ℤ}
use llm_river.Base.Int.{ℤ}
use llm_river.Base.{ℕ, Bool, not, Option, none, some, List, [], ◌∷◌, Bytes, codes, if◌then◌else◌}
use llm_river.Float.{Float}
use llm_river.Json.Document.{
  Json, Items, Members, text, token, array, object, nil, cons, end, member,
}
use llm_river.Json.Values.{bool_text, double_text}
use llm_river.Report.Structs.{
  CpuInfo, ThreadScalingPoint, RamBenchResult, MlpPoint, LatencyBenchResult, DiskBenchResult,
  ComputeBenchResult, HugepageBenchResult, Report,
}
use llm_river.Report.WriteJson.{is_empty}

abbrev pub of_string : Bytes → Json
of_string = text

abbrev pub of_uint : ℕ → Json
of_uint n = token (show_ℕ n)

abbrev pub of_int : ℤ → Json
of_int v = token (show_ℤ v)

abbrev pub of_bool : Bool → Json
of_bool b = token (bool_text b)

-- A member whose text is empty is left out.
abbrev pub note_member : Bytes → Members → Members
note_member note ms = if not (is_empty note) then member (codes "note") (of_string note) ms else ms

-- A part that was not measured is left out.
abbrev pub part_member {κ} : {A : Type κ} → Bytes → (A → Json) → Option A → Members → Members
part_member k f none ms = ms
part_member k f (some a) ms = member k (f a) ms

unfoldable pub cpu_json : CpuInfo → Json
cpu_json c = object (
    member (codes "model_name") (of_string c.model_name) (
      member (codes "logical_cpus") (of_int c.logical_cpus) (
        member (codes "l1d_bytes_per_core") (of_uint c.l1d_bytes_per_core) (
          member (codes "l2_bytes_per_core") (of_uint c.l2_bytes_per_core) (
            member (codes "l3_bytes_total") (of_uint c.l3_bytes_total) (
              member (codes "has_avx2") (of_bool c.has_avx2) (
                member (codes "has_avx512f") (of_bool c.has_avx512f) (
                  member (codes "has_avx512bw") (of_bool c.has_avx512bw) (
                    member (codes "has_avx512vnni") (of_bool c.has_avx512vnni) (
                      member (codes "has_avx512_bf16") (of_bool c.has_avx512_bf16) (
                        member (codes "thp_available") (of_bool c.thp_available) (
                          member (codes "hugetlb_available") (of_bool c.hugetlb_available)
                            end))))))))))))

module _ {ℓ} {F : Type ℓ} (float : Float F) where
  abbrev pub of_double : F → Json
  of_double v = token (double_text float v)

  unfoldable pub point_json : ThreadScalingPoint F → Json
  point_json p = object (
      member (codes "threads") (of_int p.threads) (
        member (codes "aggregate_gbs") (of_double p.aggregate_gbs)
          (member (codes "per_thread_gbs") (of_double p.per_thread_gbs) end)))

  unfoldable pub points_json : List (ThreadScalingPoint F) → Items
  points_json [] = nil
  points_json (p ∷ ps) = cons (point_json p) (points_json ps)

  unfoldable pub ram_json : RamBenchResult F → Json
  ram_json r = object (
      member (codes "buffer_bytes_per_thread") (of_uint r.buffer_bytes_per_thread) (
        member (codes "max_threads_tested") (of_int r.max_threads_tested) (
          member (codes "single_thread_read_gbs") (of_double r.single_thread_read_gbs) (
            member (codes "read_saturation_threads") (of_int r.read_saturation_threads) (
              member (codes "read_saturation_gbs") (of_double r.read_saturation_gbs) (
                member (codes "read_scaling") (array (points_json r.read_scaling)) (
                  member (codes "write_plain_scaling") (array (points_json r.write_plain_scaling)) (
                    member (codes "write_nt_scaling") (array (points_json r.write_nt_scaling))
                      end))))))))

  unfoldable pub mlp_json : MlpPoint F → Json
  mlp_json p = object (
      member (codes "streams") (of_int p.streams)
        (member (codes "bandwidth_gbs") (of_double p.bandwidth_gbs) end))

  unfoldable pub mlps_json : List (MlpPoint F) → Items
  mlps_json [] = nil
  mlps_json (p ∷ ps) = cons (mlp_json p) (mlps_json ps)

  unfoldable pub latency_json : LatencyBenchResult F → Json
  latency_json r = object (
      member (codes "footprint_bytes") (of_uint r.footprint_bytes) (
        member (codes "dependent_chain_latency_ns") (of_double r.dependent_chain_latency_ns) (
          member (codes "mlp_plateau_streams") (of_int r.mlp_plateau_streams) (
            member (codes "mlp_plateau_bandwidth_gbs") (of_double r.mlp_plateau_bandwidth_gbs) (
              member (codes "implied_outstanding_requests")
                (of_double r.implied_outstanding_requests)
                (member (codes "mlp_scaling") (array (mlps_json r.mlp_scaling)) end))))))

  unfoldable pub disk_json : DiskBenchResult F → Json
  disk_json r = object (
      member (codes "file_path") (of_string r.file_path) (
        member (codes "file_size_bytes") (of_uint r.file_size_bytes) (
          member (codes "used_o_direct") (of_bool r.used_o_direct) (
            note_member r.note (
              member (codes "sequential_read_gbs") (of_double r.sequential_read_gbs) (
                member (codes "random4k_iops") (of_double r.random4k_iops) (
                  member (codes "random4k_bandwidth_mbs") (of_double r.random4k_bandwidth_mbs) (
                    member (codes "random4k_avg_latency_us") (of_double r.random4k_avg_latency_us)
                      end))))))))

  unfoldable pub compute_json : ComputeBenchResult F → Json
  compute_json r = object (
      member (codes "fp32_fma_available") (of_bool r.fp32_fma_available) (
        member (codes "fp32_fma_gflops") (of_double r.fp32_fma_gflops) (
          member (codes "int8_vnni_available") (of_bool r.int8_vnni_available)
            (member (codes "int8_vnni_gops") (of_double r.int8_vnni_gops) end))))

  unfoldable pub hugepage_json : HugepageBenchResult F → Json
  hugepage_json r = object (
      member (codes "ran") (of_bool r.ran) (
        note_member r.note (
          member (codes "footprint_bytes") (of_uint r.footprint_bytes) (
            member (codes "baseline_4k_latency_ns") (of_double r.baseline_4k_latency_ns) (
              member (codes "hugepage_latency_ns") (of_double r.hugepage_latency_ns) (
                member (codes "hugepage_confirmed") (of_bool r.hugepage_confirmed) (
                  member (codes "latency_reduction_pct") (of_double r.latency_reduction_pct) (
                    member (codes "baseline_4k_seq_gbs") (of_double r.baseline_4k_seq_gbs) (
                      member (codes "hugepage_seq_gbs") (of_double r.hugepage_seq_gbs)
                        (member (codes "seq_gain_pct") (of_double r.seq_gain_pct) end))))))))))

  unfoldable pub report_json : Bytes → Report F → Json
  report_json now r = object (
      member (codes "generated_at") (of_string now) (
        member (codes "cpu") (cpu_json r.cpu) (
          part_member (codes "ram") ram_json r.ram (
            part_member (codes "latency") latency_json r.latency (
              part_member (codes "disk") disk_json r.disk (
                part_member (codes "compute") compute_json r.compute
                  (part_member (codes "hugepage") hugepage_json r.hugepage end)))))))
