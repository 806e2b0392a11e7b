-- ===== src/Report/Structs.antt =====
-- The result structs of the benchmarks and `struct Report`: cpu_info.hpp, ram_bench.hpp,
-- latency_bench.hpp, disk_bench.hpp, compute_bench.hpp, hugepage_bench.hpp and report.hpp under
-- tools/roofline/src. An `int` is a ℤ; `size_t` and `uint64_t` are ℕ; `F` stands for `double`.
use llm_river.Base.Int.{ℤ, pos}
use llm_river.Base.{ℕ, Bool, false, Option, List, [], Bytes}

pub record CpuInfo : Type 0 where
  pub model_name : Bytes
  pub logical_cpus : ℤ
  pub l1d_bytes_per_core : ℕ
  pub l2_bytes_per_core : ℕ
  pub l3_bytes_total : ℕ
  pub has_avx2 : Bool
  pub has_avx512f : Bool
  pub has_avx512bw : Bool
  pub has_avx512vnni : Bool
  pub has_avx512_bf16 : Bool
  pub thp_available : Bool
  pub hugetlb_available : Bool

pub record ThreadScalingPoint {ℓ} (F : Type ℓ) : Type ℓ where
  pub threads : ℤ
  pub aggregate_gbs : F
  pub per_thread_gbs : F

pub record RamBenchResult {ℓ} (F : Type ℓ) : Type ℓ where
  pub read_scaling : List (ThreadScalingPoint F)
  pub write_plain_scaling : List (ThreadScalingPoint F)
  pub write_nt_scaling : List (ThreadScalingPoint F)
  pub buffer_bytes_per_thread : ℕ
  pub max_threads_tested : ℤ
  pub single_thread_read_gbs : F
  pub read_saturation_threads : ℤ
  pub read_saturation_gbs : F

pub record MlpPoint {ℓ} (F : Type ℓ) : Type ℓ where
  pub streams : ℤ
  pub bandwidth_gbs : F

pub record LatencyBenchResult {ℓ} (F : Type ℓ) : Type ℓ where
  pub footprint_bytes : ℕ
  pub dependent_chain_latency_ns : F
  pub mlp_scaling : List (MlpPoint F)
  pub mlp_plateau_streams : ℤ
  pub mlp_plateau_bandwidth_gbs : F
  pub implied_outstanding_requests : F

pub record DiskBenchResult {ℓ} (F : Type ℓ) : Type ℓ where
  pub file_path : Bytes
  pub file_size_bytes : ℕ
  pub used_o_direct : Bool
  pub note : Bytes
  pub sequential_read_gbs : F
  pub random4k_iops : F
  pub random4k_bandwidth_mbs : F
  pub random4k_avg_latency_us : F

pub record ComputeBenchResult {ℓ} (F : Type ℓ) : Type ℓ where
  pub fp32_fma_available : Bool
  pub fp32_fma_gflops : F
  pub int8_vnni_available : Bool
  pub int8_vnni_gops : F

pub record HugepageBenchResult {ℓ} (F : Type ℓ) : Type ℓ where
  pub ran : Bool
  pub note : Bytes
  pub footprint_bytes : ℕ
  pub baseline_4k_latency_ns : F
  pub hugepage_latency_ns : F
  pub hugepage_confirmed : Bool
  pub latency_reduction_pct : F
  pub baseline_4k_seq_gbs : F
  pub hugepage_seq_gbs : F
  pub seq_gain_pct : F

pub record Report {ℓ} (F : Type ℓ) : Type ℓ where
  pub cpu : CpuInfo
  pub ram : Option (RamBenchResult F)
  pub latency : Option (LatencyBenchResult F)
  pub disk : Option (DiskBenchResult F)
  pub compute : Option (ComputeBenchResult F)
  pub hugepage : Option (HugepageBenchResult F)

-- The structs' default member initialisers.
abbrev pub new_cpu_info : CpuInfo
new_cpu_info = record {
  model_name = [];
  logical_cpus = pos 0;
  l1d_bytes_per_core = 0;
  l2_bytes_per_core = 0;
  l3_bytes_total = 0;
  has_avx2 = false;
  has_avx512f = false;
  has_avx512bw = false;
  has_avx512vnni = false;
  has_avx512_bf16 = false;
  thp_available = false;
  hugetlb_available = false;
}
