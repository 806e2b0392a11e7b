-- ===== src/Main.antt =====
-- `print_usage` and `main` of tools/roofline/src/main.cpp. The benches are an interface, which Main/Roofline fills
-- with the models of the benches; what a stopped bench has printed is not kept.
pub mod Arguments
pub mod Asked
pub mod Collected
pub mod Plain
pub mod Done
pub mod Usage
pub mod Roofline
use llm_river.Base.Int.{ℤ, pos, to_u64, to_i32, pos_part, ltb_ℤ, leb_ℤ}
use llm_river.Base.Run.{Run, stopped, undefined, done, ◌>>=◌, or_stop}
use llm_river.Base.{
  ℕ, ◌+◌, ◌*◌, ◌/◌, ◌%◌, ◌^◌, Bool, true, false, not, ◌||◌, Option, none, some, List, [], ◌∷◌,
  if◌then◌else◌, Bytes, codes, str_eq,
}
use llm_river.Float.{Float}
use llm_river.Main.Arguments.{
  Benches, Host, duration_of, ram_bytes, ram_threads, latency_bytes, latency_streams, disk_path,
  disk_bytes, hugepage_bytes, main_ram, main_latency, main_disk, main_compute, main_hugepage,
}
use llm_river.Options.{Options, get, get_long, has, parse_options}
use llm_river.Report.Print.{Format, Stream, Item, chars, string, int, uint, Printing, say}
use llm_river.Report.Structs.{
  CpuInfo, RamBenchResult, LatencyBenchResult, DiskBenchResult, ComputeBenchResult,
  HugepageBenchResult, Report,
}
use llm_river.Report.WriteGuidance.{write_guidance}
use llm_river.Report.WriteHuman.{write_human}
use llm_river.Report.WriteJson.{write_json}

pub record Outcome : Type 0 where
  pub exit_code : ℤ
  pub stdout : Bytes
  pub stderr : Bytes
  -- the path of `--out` with what is written to its stream
  pub file : Option (Bytes × Bytes)

-- `cmd == "all" || cmd == part`
unfoldable pub wants : Bytes → Bytes → Bool
unfolding str_eq
wants cmd part = str_eq cmd (codes "all") || str_eq cmd part

-- The condition under which the usage is not printed.
unfoldable pub is_command : Bytes → Bool
unfolding wants
is_command cmd =
    wants cmd (codes "ram")
    || wants cmd (codes "latency")
    || wants cmd (codes "disk")
    || wants cmd (codes "compute")
    || wants cmd (codes "hugepage")

abbrev pub new_stream : Stream
new_stream = record { text = []; fixed = false }

-- `if (want_…) report.part = …`, with the lines on `stderr` from before
abbrev pub if_wanted {ℓ} : {A : Type ℓ} → Bool → Run A → Printing → Stream → Run (Option A × Stream)
if_wanted true bench note err = bench >>= λ a. done (some a, note err)
if_wanted false bench note err = done (none, err)

module _ {ℓ} {F : Type ℓ} (format : Format F) where
  open format use {float}

  unfoldable pub print_usage : Bytes → Printing
  print_usage prog = say format (
      chars "usage: "
      ∷ string prog
      ∷ chars " <all|ram|latency|disk|compute|hugepage> [options]\n\n"
      ∷ chars "This is a machine resistance-matrix profiler -- see docs/PLAN.md.\n"
      ∷ chars "Rebuild and run it on the actual target machine; numbers taken on\n"
      ∷ chars "a dev sandbox / VM are not representative.\n\n"
      ∷ chars "options (all optional, sane defaults):\n"
      ∷ chars "  --duration-ms=N          time budget per sub-benchmark (default 300)\n"
      ∷ chars "  --ram-buf-mb=N           per-thread RAM buffer, should exceed L3 (default 512)\n"
      ∷ chars "  --ram-threads=N          max threads for the RAM sweep (default: nproc)\n"
      ∷ chars "  --latency-footprint-mb=N pointer-chase footprint, should exceed L3 (default 512)\n"
      ∷ chars "  --latency-max-streams=N  max independent MLP streams to sweep (default 64)\n"
      ∷ chars
          "  --disk-file=PATH         target file for disk bench (default /tmp/roofline_disk_test.bin)\n"
      ∷ chars "  --disk-size-mb=N         disk test file size (default 512)\n"
      ∷ chars "  --hugepage-footprint-mb=N hugepage-vs-4K footprint (default 512)\n"
      ∷ chars "  --json                   print JSON to stdout instead of the human summary\n"
      ∷ chars "  --out=PATH               also write the JSON report to PATH\n"
      ∷ [])

  -- The lines on `stderr` before the benches.
  unfoldable pub note_ram : Host → Options → Printing
  unfolding ram_bytes ram_threads say
  note_ram host options = say format (
      chars "[roofline] ram bench: "
      ∷ int (ram_threads host options)
      ∷ chars " threads x "
      ∷ uint (ram_bytes options / (1024 * 1024))
      ∷ chars " MB...\n"
      ∷ [])

  unfoldable pub note_latency : Options → Printing
  unfolding latency_bytes latency_streams say
  note_latency options = say format (
      chars "[roofline] latency/MLP bench: "
      ∷ uint (latency_bytes options / (1024 * 1024))
      ∷ chars " MB footprint, up to "
      ∷ int (latency_streams options)
      ∷ chars " streams...\n"
      ∷ [])

  unfoldable pub note_disk : Options → Printing
  unfolding disk_path disk_bytes say
  note_disk options = say format (
      chars "[roofline] disk bench: "
      ∷ string (disk_path options)
      ∷ chars " ("
      ∷ uint (disk_bytes options / (1024 * 1024))
      ∷ chars " MB)...\n"
      ∷ [])

  unfoldable pub note_compute : Printing
  unfolding say
  note_compute = say format (chars "[roofline] compute bench...\n" ∷ [])

  unfoldable pub note_hugepage : Options → Printing
  unfolding hugepage_bytes say
  note_hugepage options = say format (
      chars "[roofline] hugepage bench: "
      ∷ uint (hugepage_bytes options / (1024 * 1024))
      ∷ chars " MB footprint...\n"
      ∷ [])

  module _ (benches : Benches F) (host : Host) (options : Options) where
    -- The report on a command, and what is on `stderr` then.
    unfoldable pub collect : Bytes → Stream → Run (Report F × Stream)
    unfolding wants note_ram note_latency note_disk note_compute note_hugepage duration_of ram_bytes
        ram_threads latency_bytes latency_streams disk_path disk_bytes hugepage_bytes
    collect cmd err = do
      ram ←
          if_wanted (wants cmd (codes "ram")) (main_ram benches host options)
            (note_ram host options) err
      latency ←
          if_wanted (wants cmd (codes "latency")) (main_latency benches host options)
            (note_latency options) ram.1
      disk ←
          if_wanted (wants cmd (codes "disk")) (main_disk benches host options) (note_disk options)
            latency.1
      compute ←
          if_wanted (wants cmd (codes "compute")) (main_compute benches host options) note_compute
            disk.1
      hugepage ←
          if_wanted (wants cmd (codes "hugepage")) (main_hugepage benches host options)
            (note_hugepage options) compute.1
      done (
        record {
          cpu = benches.detect_cpu_info;
          ram = ram.0;
          latency = latency.0;
          disk = disk.0;
          compute = compute.0;
          hugepage = hugepage.0;
        },
        hugepage.1,
      )

    -- `--out`
    unfoldable pub save_report : Report F → Run (Option (Bytes × Bytes))
    unfolding has get write_json
    save_report report =
        if has options (codes "out")
        then (or_stop undefined (write_json float [] host.file_date report) >>= λ text.
            done (some (get options (codes "out") [], text)))
        else done none

    -- `--json`, or the report for people with its guidance
    unfoldable pub show_report : Report F → Run Bytes
    unfolding has write_json write_human write_guidance
    show_report report =
        if has options (codes "json")
        then or_stop undefined (write_json float [] host.stdout_date report)
        else done (write_guidance format report (write_human format report new_stream)).text

    -- `main` on a command.
    unfoldable pub run_command : Bytes → Run Outcome
    unfolding collect save_report show_report
    run_command cmd = do
      r ← collect cmd new_stream
      file ← save_report r.0
      stdout ← show_report r.0
      done (record { exit_code = pos 0; stdout = stdout; stderr = r.1.text; file = file })

  abbrev usage_outcome : Bytes → Run Outcome
  usage_outcome prog = done (record {
    exit_code = pos 1;
    stdout = [];
    stderr = (print_usage prog new_stream).text;
    file = none;
  })

  -- `argv[0]` and the arguments behind it.
  unfoldable pub main : Benches F → Host → Bytes → List Bytes → Run Outcome
  unfolding print_usage parse_options is_command run_command
  main benches host prog [] = usage_outcome prog
  main benches host prog (cmd ∷ args) =
      let ran = run_command benches host (parse_options args) cmd in
      if is_command cmd then ran else usage_outcome prog
