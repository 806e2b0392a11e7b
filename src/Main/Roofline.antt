-- ===== src/Main/Roofline.antt =====
-- The benches of tools/roofline/src together under `main`, and a machine on which the program ends.
use llm_river.Base.Int.{ℤ, pos}
use llm_river.Base.Run.{out_of_fuel, done, ◌>>=◌, or_stop}
use llm_river.Base.{
  ℕ, suc, ◌+◌, ◌^◌, ◌≤◌, ◌<◌, Bool, true, Option, some, List, [], ◌∷◌, ◌≡◌, refl, ap, Bytes, codes,
  length,
}
use llm_river.Clock.{Clock, TimeIsUp, ms_to_ns}
use llm_river.Compute.{Avx512f, Avx512vnni, Machine, run_compute_bench}
use llm_river.Compute.Bench.{run_compute_bench_done}
use llm_river.Cpu.{Files, detect_cpu_info}
use llm_river.Disk.Bench.{run_disk_bench}
use llm_river.Disk.Bench.Closed.{run_disk_bench-held}
use llm_river.Disk.Bench.Held.{FitsLong}
use llm_river.Disk.{System, chunk_bytes}
use llm_river.Hugepage.{run_hugepage_bench}
use llm_river.Hugepage.Expected.{TimesUp}
use llm_river.Hugepage.Bench.{run_hugepage_bench_done}
use llm_river.Latency.{run_latency_bench, chase_count}
use llm_river.Latency.Bench.{run_latency_bench_done}
use llm_river.Main.Arguments.{
  Benches, Host, duration_of, ram_bytes, ram_threads, latency_bytes, latency_streams, disk_path,
  disk_bytes, hugepage_bytes,
}
use llm_river.Main.Asked.{IsCommand}
use llm_river.Main.Done.{Shows, Saves, main_done}
use llm_river.Main.Collected.{IsRequested, Returns}
use llm_river.Main.Plain.{HasPlainDates}
use llm_river.Main.{Outcome, main}
use llm_river.Options.{Options, has, parse_options}
use llm_river.Ram.Bench.{run_ram_bench_done}
use llm_river.Ram.Sweeps.{InTime}
use llm_river.Ram.Passes.{Kernel}
use llm_river.Ram.{Readings, run_ram_bench}
use llm_river.Random.{Rng, IsUniform}
use llm_river.Report.Inline.{PrintsInline}
use llm_river.Report.Print.{Format}
use llm_river.Report.Structs.{Report}
use llm_river.Report.Valid.{ShowsNumbers, HasPlainStrings}

-- What the benches find outside.
pub record World : Type 0 where
  pub files : Files
  pub supports : Bytes → Bool
  pub online : ℤ
  pub ram_room : ℕ → ℕ → Bool
  pub ram_clock : Kernel → Readings
  pub latency_memory : ℕ → Option (List ℕ)
  pub chase_clock : Clock
  pub mlp_clock : ℕ → Clock
  pub disk_system : System
  pub disk_outside : llm_river.Disk.Bench.Outside
  pub machine : Machine
  pub pages : llm_river.Hugepage.Outside

module _ {ℓ κ μ} {F : Type ℓ} (format : Format F) {G : Type 0} (rng : Rng G) {S V : Type κ}
    (avx : Avx512f S V) {W : Type μ} (vnni : Avx512vnni W) (fuel : ℕ) (world : World)
    (host : Host) where
  open format use {float}

  unfoldable pub roofline_benches : Benches F
  unfolding detect_cpu_info run_ram_bench run_latency_bench run_disk_bench run_compute_bench
      run_hugepage_bench
  roofline_benches = record {
    detect_cpu_info =
        detect_cpu_info world.files world.supports world.online host.hardware_concurrency;
    run_ram_bench = λ bytes threads duration_ms.
        run_ram_bench float fuel world.ram_room world.ram_clock bytes threads duration_ms;
    run_latency_bench = λ bytes streams duration_ms.
        run_latency_bench float rng fuel world.latency_memory world.chase_clock world.mlp_clock
          bytes streams duration_ms;
    run_disk_bench = λ path bytes duration_ms.
        or_stop out_of_fuel (
          run_disk_bench float rng fuel world.disk_system world.disk_outside path bytes duration_ms
            [])
        >>= λ r. done r.0;
    run_compute_bench =
        λ duration_ms. run_compute_bench float avx vnni fuel world.machine duration_ms;
    run_hugepage_bench = λ bytes duration_ms.
        run_hugepage_bench float rng fuel world.pages bytes duration_ms >>= λ r. done r.0;
  }

  -- Options within bounds on a machine that gives memory and whose clocks go on: at least one thread; arrays for
  -- the pointer chase of 256 GB at most, and mappings of at least 1 byte; and a fuel that no clock uses up.
  pub record IsAble (options : Options) : Type 0 where
    pub uniform : IsUniform rng
    pub more_threads : ℕ
    pub threads : ram_threads host options ≡ pos (suc more_threads)
    pub threads_fit : more_threads < 2 ^ 31
    pub buffers_fit : ram_bytes options + 63 < 2 ^ 64
    pub buffers_room : (i bytes : ℕ) → world.ram_room i bytes ≡ true
    pub ram_time :
        (kind : Kernel) → InTime fuel (world.ram_clock kind) (ms_to_ns (duration_of options))
    pub chase_small : latency_bytes options ≤ 2 ^ 38
    pub fresh : List ℕ
    pub fresh_room : world.latency_memory (chase_count (latency_bytes options)) ≡ some fresh
    pub fresh_length : length fresh ≡ chase_count (latency_bytes options)
    pub chase_rounds : ℕ
    pub chase_time :
        TimeIsUp world.chase_clock
          (world.chase_clock 0)
          (ms_to_ns (duration_of options))
          1
          chase_rounds
    pub chase_enough : chase_rounds < fuel
    pub mlp_rounds : ℕ → ℕ
    pub mlp_time :
        (k : ℕ)
        → TimeIsUp
            (world.mlp_clock k)
            (world.mlp_clock k 0)
            (ms_to_ns (duration_of options))
            1
            (mlp_rounds k)
    pub mlp_enough : (k : ℕ) → mlp_rounds k < fuel
    pub disk_long : FitsLong world.disk_system
    pub disk_small : disk_bytes options + chunk_bytes ≤ 2 ^ 63
    pub disk_enough : disk_bytes options + chunk_bytes ≤ fuel
    pub stream_rounds : ℕ
    pub stream_time :
        TimeIsUp world.disk_outside.stream_clock
          (world.disk_outside.stream_clock 0)
          (ms_to_ns (duration_of options))
          1
          stream_rounds
    pub stream_enough : stream_rounds < fuel
    pub random_rounds : ℕ
    pub random_time :
        TimeIsUp world.disk_outside.random_clock
          (world.disk_outside.random_clock 0)
          (ms_to_ns (duration_of options))
          1
          random_rounds
    pub random_enough : random_rounds < fuel
    pub floats_room : world.machine.room_for_floats ≡ true
    pub bytes_room : world.machine.room_for_bytes ≡ true
    pub fma_rounds : ℕ
    pub fma_time :
        TimeIsUp world.machine.fma_clock
          (world.machine.fma_clock 0)
          (ms_to_ns (duration_of options))
          1
          fma_rounds
    pub fma_enough : fma_rounds < fuel
    pub vnni_rounds : ℕ
    pub vnni_time :
        TimeIsUp world.machine.vnni_clock
          (world.machine.vnni_clock 0)
          (ms_to_ns (duration_of options))
          1
          vnni_rounds
    pub vnni_enough : vnni_rounds < fuel
    pub pages_some : 0 < hugepage_bytes options
    pub pages_small : hugepage_bytes options ≤ 2 ^ 38
    pub pages_time : TimesUp world.pages (duration_of options) fuel

  roofline_benches-Returns :
      (options : Options) (cmd : Bytes) → IsAble options → Returns roofline_benches host options cmd
  unfolding roofline_benches
  roofline_benches-Returns options cmd able = record {
    ram_returns = λ _.
        let (r, ran, _) =
          run_ram_bench_done float fuel world.ram_room world.ram_clock (ram_bytes options)
            able.more_threads (duration_of options) able.threads_fit able.buffers_fit
            able.buffers_room able.ram_time in
        (r, rw (able.threads) ran);
    latency_returns = λ _.
        let (r, ran, _) =
          run_latency_bench_done float rng able.uniform fuel world.latency_memory world.chase_clock
            world.mlp_clock (latency_bytes options) (latency_streams options) (duration_of options)
            able.fresh able.chase_rounds able.mlp_rounds able.chase_small able.fresh_room
            able.fresh_length able.chase_time able.chase_enough able.mlp_time able.mlp_enough in
        (r, ran);
    disk_returns = λ _.
        let (r, calls, ran, _) =
          run_disk_bench-held float rng fuel world.disk_system world.disk_outside
            (disk_path options) (disk_bytes options) (duration_of options) able.stream_rounds
            able.random_rounds able.disk_long able.disk_small able.disk_enough able.stream_time
            able.stream_enough able.random_time able.random_enough in
        (r, rw ran refl);
    compute_returns = λ _. (
      _,
      run_compute_bench_done float avx vnni fuel world.machine (duration_of options) able.fma_rounds
          able.vnni_rounds able.floats_room able.bytes_room able.fma_time able.fma_enough
          able.vnni_time able.vnni_enough,
    );
    hugepage_returns = λ _.
        let (calls, ran, _) =
          run_hugepage_bench_done float rng able.uniform fuel world.pages (hugepage_bytes options)
            (duration_of options) able.pages_time able.pages_some able.pages_small in
        (_, ap (λ x. x >>= λ r. done r.0) ran);
  }

  -- With one of the six commands, and options within bounds on a machine that is able to run them (`IsAble`), the
  -- program ends with exit code 0, and prints and saves the report of the benches that the command asks for and of
  -- no other, as `main_done` describes. The prints of doubles, the dates and the strings of the report are
  -- as there.
  pub roofline_main_done :
      (prog cmd : Bytes) (args : List Bytes)
      → ShowsNumbers float
      → PrintsInline format
      → HasPlainDates host
      → IsCommand cmd
      → IsAble (parse_options args)
      → ((r : Report F)
          → IsRequested roofline_benches host (parse_options args) cmd r
          → HasPlainStrings r)
      → (r : Report F) × (o : Outcome) × (main format roofline_benches host prog (cmd ∷ args)
          ≡ done o)
        × IsRequested roofline_benches host (parse_options args) cmd r
        × (o.exit_code ≡ pos 0)
        × Shows format roofline_benches host
            (parse_options args)
            (has (parse_options args) (codes "json"))
            o.stdout
            r
        × Saves format roofline_benches host
            (parse_options args)
            (has (parse_options args) (codes "out"))
            o.file
            r
  roofline_main_done prog cmd args shows prints dates known able plain =
      main_done format roofline_benches host prog cmd args shows prints dates known
        (roofline_benches-Returns (parse_options args) cmd able) plain
