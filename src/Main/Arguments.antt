-- ===== src/Main/Arguments.antt =====
-- What `main` of tools/roofline/src/main.cpp calls the benches with.
use llm_river.Base.Int.{ℤ, pos, to_u64, to_i32, leb_ℤ}
use llm_river.Base.Run.{Run}
use llm_river.Base.{ℕ, ◌*◌, ◌%◌, ◌^◌, Bytes, codes, if◌then◌else◌}
use llm_river.Options.{Options, get, get_long}
use llm_river.Report.Structs.{
  CpuInfo, RamBenchResult, LatencyBenchResult, DiskBenchResult, ComputeBenchResult,
  HugepageBenchResult,
}

-- The benches, with the arguments that `main` gives them.
pub record Benches {ℓ} (F : Type ℓ) : Type ℓ where
  pub detect_cpu_info : CpuInfo
  -- bytes per buffer, threads, duration
  pub run_ram_bench : ℕ → ℤ → ℤ → Run (RamBenchResult F)
  -- footprint, streams, duration
  pub run_latency_bench : ℕ → ℤ → ℤ → Run (LatencyBenchResult F)
  -- path, size, duration
  pub run_disk_bench : Bytes → ℕ → ℤ → Run (DiskBenchResult F)
  pub run_compute_bench : ℤ → Run (ComputeBenchResult F)
  -- footprint, duration
  pub run_hugepage_bench : ℕ → ℤ → Run (HugepageBenchResult F)

-- `std::thread::hardware_concurrency()`, and the dates that the two calls of `write_json` print.
pub record Host : Type 0 where
  pub hardware_concurrency : ℕ
  pub file_date : Bytes
  pub stdout_date : Bytes

-- `static_cast<size_t>(n) * 1024 * 1024`
unfoldable pub megabytes : ℤ → ℕ
megabytes n = to_u64 n * 1024 % 2 ^ 64 * 1024 % 2 ^ 64

unfoldable pub duration_of : Options → ℤ
unfolding get_long
duration_of options = to_i32 (get_long options (codes "duration-ms") (pos 300))

unfoldable pub default_threads : Host → ℤ
default_threads host =
    let threads = to_i32 (pos host.hardware_concurrency) in
    if leb_ℤ threads (pos 0) then pos 4 else threads

-- What each bench is called with.
unfoldable pub ram_bytes : Options → ℕ
unfolding get_long megabytes
ram_bytes options = megabytes (get_long options (codes "ram-buf-mb") (pos 512))

unfoldable pub ram_threads : Host → Options → ℤ
unfolding get_long default_threads
ram_threads host options = to_i32 (get_long options (codes "ram-threads") (default_threads host))

unfoldable pub latency_bytes : Options → ℕ
unfolding get_long megabytes
latency_bytes options = megabytes (get_long options (codes "latency-footprint-mb") (pos 512))

unfoldable pub latency_streams : Options → ℤ
unfolding get_long
latency_streams options = to_i32 (get_long options (codes "latency-max-streams") (pos 64))

unfoldable pub disk_path : Options → Bytes
unfolding get
disk_path options = get options (codes "disk-file") (codes "/tmp/roofline_disk_test.bin")

unfoldable pub disk_bytes : Options → ℕ
unfolding get_long megabytes
disk_bytes options = megabytes (get_long options (codes "disk-size-mb") (pos 512))

unfoldable pub hugepage_bytes : Options → ℕ
unfolding get_long megabytes
hugepage_bytes options = megabytes (get_long options (codes "hugepage-footprint-mb") (pos 512))

module _ {ℓ} {F : Type ℓ} (benches : Benches F) (host : Host) (options : Options) where
  abbrev pub main_ram : Run (RamBenchResult F)
  main_ram =
      benches.run_ram_bench (ram_bytes options) (ram_threads host options) (duration_of options)

  abbrev pub main_latency : Run (LatencyBenchResult F)
  main_latency =
      benches.run_latency_bench (latency_bytes options) (latency_streams options)
        (duration_of options)

  abbrev pub main_disk : Run (DiskBenchResult F)
  main_disk = benches.run_disk_bench (disk_path options) (disk_bytes options) (duration_of options)

  abbrev pub main_compute : Run (ComputeBenchResult F)
  main_compute = benches.run_compute_bench (duration_of options)

  abbrev pub main_hugepage : Run (HugepageBenchResult F)
  main_hugepage = benches.run_hugepage_bench (hugepage_bytes options) (duration_of options)
