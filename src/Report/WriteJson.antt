-- ===== src/Report/WriteJson.antt =====
-- `write_json` of tools/roofline/src/report.cpp, and the function that it calls for each part.
use llm_river.Base.{
  Bool, true, false, not, Option, none, some, List, [], ◌∷◌, ◌++◌, Bytes, codes, ◌>>=◌,
}
use llm_river.Float.{Float}
use llm_river.Json.{
  Action, ◌>>◌, skip, when, new_writer, begin_object, end_object, begin_array, end_array, key,
  kv_string, kv_uint64, kv_int, kv_bool, kv_double,
}
use llm_river.Report.Structs.{
  CpuInfo, ThreadScalingPoint, RamBenchResult, MlpPoint, LatencyBenchResult, DiskBenchResult,
  ComputeBenchResult, HugepageBenchResult, Report,
}

-- `s.empty()`
abbrev pub is_empty : Bytes → Bool
is_empty [] = true
is_empty (c ∷ cs) = false

unfoldable pub write_cpu : CpuInfo → Action
write_cpu c = do
  begin_object
  kv_string (codes "model_name") c.model_name
  kv_int (codes "logical_cpus") c.logical_cpus
  kv_uint64 (codes "l1d_bytes_per_core") c.l1d_bytes_per_core
  kv_uint64 (codes "l2_bytes_per_core") c.l2_bytes_per_core
  kv_uint64 (codes "l3_bytes_total") c.l3_bytes_total
  kv_bool (codes "has_avx2") c.has_avx2
  kv_bool (codes "has_avx512f") c.has_avx512f
  kv_bool (codes "has_avx512bw") c.has_avx512bw
  kv_bool (codes "has_avx512vnni") c.has_avx512vnni
  kv_bool (codes "has_avx512_bf16") c.has_avx512_bf16
  kv_bool (codes "thp_available") c.thp_available
  kv_bool (codes "hugetlb_available") c.hugetlb_available
  end_object

module _ {ℓ} {F : Type ℓ} (float : Float F) where
  unfoldable pub write_scaling_point : ThreadScalingPoint F → Action
  write_scaling_point p = do
    begin_object
    kv_int (codes "threads") p.threads
    kv_double float (codes "aggregate_gbs") p.aggregate_gbs
    kv_double float (codes "per_thread_gbs") p.per_thread_gbs
    end_object

  unfoldable pub write_scaling_points : List (ThreadScalingPoint F) → Action
  write_scaling_points [] = skip
  write_scaling_points (p ∷ ps) = do write_scaling_point p; write_scaling_points ps

  unfoldable pub write_scaling : Bytes → List (ThreadScalingPoint F) → Action
  write_scaling k pts = do key k; begin_array; write_scaling_points pts; end_array

  unfoldable pub write_ram : RamBenchResult F → Action
  write_ram r = do
    begin_object
    kv_uint64 (codes "buffer_bytes_per_thread") r.buffer_bytes_per_thread
    kv_int (codes "max_threads_tested") r.max_threads_tested
    kv_double float (codes "single_thread_read_gbs") r.single_thread_read_gbs
    kv_int (codes "read_saturation_threads") r.read_saturation_threads
    kv_double float (codes "read_saturation_gbs") r.read_saturation_gbs
    write_scaling (codes "read_scaling") r.read_scaling
    write_scaling (codes "write_plain_scaling") r.write_plain_scaling
    write_scaling (codes "write_nt_scaling") r.write_nt_scaling
    end_object

  unfoldable pub write_mlp_point : MlpPoint F → Action
  write_mlp_point p = do
    begin_object
    kv_int (codes "streams") p.streams
    kv_double float (codes "bandwidth_gbs") p.bandwidth_gbs
    end_object

  unfoldable pub write_mlp_points : List (MlpPoint F) → Action
  write_mlp_points [] = skip
  write_mlp_points (p ∷ ps) = do write_mlp_point p; write_mlp_points ps

  unfoldable pub write_latency : LatencyBenchResult F → Action
  write_latency r = do
    begin_object
    kv_uint64 (codes "footprint_bytes") r.footprint_bytes
    kv_double float (codes "dependent_chain_latency_ns") r.dependent_chain_latency_ns
    kv_int (codes "mlp_plateau_streams") r.mlp_plateau_streams
    kv_double float (codes "mlp_plateau_bandwidth_gbs") r.mlp_plateau_bandwidth_gbs
    kv_double float (codes "implied_outstanding_requests") r.implied_outstanding_requests
    key (codes "mlp_scaling")
    begin_array
    write_mlp_points r.mlp_scaling
    end_array
    end_object

  unfoldable pub write_disk : DiskBenchResult F → Action
  write_disk r = do
    begin_object
    kv_string (codes "file_path") r.file_path
    kv_uint64 (codes "file_size_bytes") r.file_size_bytes
    kv_bool (codes "used_o_direct") r.used_o_direct
    when (not (is_empty r.note)) (kv_string (codes "note") r.note)
    kv_double float (codes "sequential_read_gbs") r.sequential_read_gbs
    kv_double float (codes "random4k_iops") r.random4k_iops
    kv_double float (codes "random4k_bandwidth_mbs") r.random4k_bandwidth_mbs
    kv_double float (codes "random4k_avg_latency_us") r.random4k_avg_latency_us
    end_object

  unfoldable pub write_compute : ComputeBenchResult F → Action
  write_compute r = do
    begin_object
    kv_bool (codes "fp32_fma_available") r.fp32_fma_available
    kv_double float (codes "fp32_fma_gflops") r.fp32_fma_gflops
    kv_bool (codes "int8_vnni_available") r.int8_vnni_available
    kv_double float (codes "int8_vnni_gops") r.int8_vnni_gops
    end_object

  unfoldable pub write_hugepage : HugepageBenchResult F → Action
  write_hugepage r = do
    begin_object
    kv_bool (codes "ran") r.ran
    when (not (is_empty r.note)) (kv_string (codes "note") r.note)
    kv_uint64 (codes "footprint_bytes") r.footprint_bytes
    kv_double float (codes "baseline_4k_latency_ns") r.baseline_4k_latency_ns
    kv_double float (codes "hugepage_latency_ns") r.hugepage_latency_ns
    kv_bool (codes "hugepage_confirmed") r.hugepage_confirmed
    kv_double float (codes "latency_reduction_pct") r.latency_reduction_pct
    kv_double float (codes "baseline_4k_seq_gbs") r.baseline_4k_seq_gbs
    kv_double float (codes "hugepage_seq_gbs") r.hugepage_seq_gbs
    kv_double float (codes "seq_gain_pct") r.seq_gain_pct
    end_object

  -- `if (result) { j.key(k); write(j, *result); }`
  unfoldable pub section {κ} : {A : Type κ} → Bytes → (A → Action) → Option A → Action
  section k write none = skip
  section k write (some r) = do key k; write r

  -- Everything between `JsonWriter j(out)` and the last line break; `now` is the time that
  -- `std::time` and `std::strftime` give.
  unfoldable pub write_document : Bytes → Report F → Action
  write_document now report = do
    begin_object
    kv_string (codes "generated_at") now
    key (codes "cpu")
    write_cpu report.cpu
    section (codes "ram") write_ram report.ram
    section (codes "latency") write_latency report.latency
    section (codes "disk") write_disk report.disk
    section (codes "compute") write_compute report.compute
    section (codes "hugepage") write_hugepage report.hugepage
    end_object

  -- What the stream `out` holds afterwards.
  unfoldable pub write_json : Bytes → Bytes → Report F → Option Bytes
  write_json out now report = do
    w ← write_document now report (new_writer out)
    some (w.out ++ b'\n' ∷ [])
