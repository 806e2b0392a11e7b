-- ===== src/Tests/Able.antt =====
-- main.cpp: `roofline compute --duration-ms=1 …` with the models of the benches, on a machine that is able to.
use llm_river.Base.Int.{pos}
use llm_river.Base.Run.{done}
use llm_river.Base.{ℕ, ◌≡◌, sym, refl, true, some, List, [], ◌∷◌, arith, Bytes, codes}
use llm_river.Main.Arguments.{
  Benches, duration_of, ram_bytes, ram_threads, latency_bytes, disk_bytes, hugepage_bytes,
}
use llm_river.Json.Parse.{IsPlain}
use llm_river.Latency.{chase_count}
use llm_river.Main.Done.{Shows, Saves}
use llm_river.Main.Collected.{IsRequested}
use llm_river.Main.Roofline.{World, roofline_benches, IsAble, roofline_main_done}
use llm_river.Main.{Outcome, main}
use llm_river.Options.{Options, has, parse_options}
use llm_river.Report.Structs.{Report}
use llm_river.Clock.{TimeIsUp, ms_to_ns}
use llm_river.Tests.Given.{
  counting, counting-IsUniform, thousandths-ShowsNumbers, ticking, ticking-TimeIsUp, readings,
}
use llm_river.Tests.Pages.{both_pages}
use llm_river.Tests.Running.{
  compute, host, host-HasPlainDates, compute-IsCommand, requested-HasPlainStrings,
}
use llm_river.Tests.Storage.{nines, nines-FitsLong, outside}
use llm_river.Tests.Vectors.{singles, quads, machine}
use llm_river.Tests.Printing.{fixed_point, fixed_point-PrintsInline}

abbrev able_args : List Bytes
able_args =
    codes "--duration-ms=1"
    ∷ codes "--json"
    ∷ codes "--ram-threads=2"
    ∷ codes "--latency-footprint-mb=0"
    ∷ []

abbrev able_options : Options
able_options = parse_options able_args

short : duration_of able_options ≡ pos 1
unfolding duration_of parse_options
short = refl

two_threads : ram_threads host able_options ≡ pos 2
unfolding ram_threads parse_options
two_threads = refl

half_giga : ram_bytes able_options ≡ 536_870_912
unfolding ram_bytes parse_options
half_giga = refl

no_footprint : latency_bytes able_options ≡ 0
unfolding latency_bytes parse_options
no_footprint = refl

two_nodes : chase_count (latency_bytes able_options) ≡ 2
two_nodes = rw no_footprint (unfold chase_count in refl)

disk_half_giga : disk_bytes able_options ≡ 536_870_912
unfolding disk_bytes parse_options
disk_half_giga = refl

pages_half_giga : hugepage_bytes able_options ≡ 536_870_912
unfolding hugepage_bytes parse_options
pages_half_giga = refl

abbrev world : World
world = record {
  files = λ path. [];
  supports = λ feature. true;
  online = pos 8;
  ram_room = λ i bytes. true;
  ram_clock = λ kind. readings;
  latency_memory = λ n. some (0 ∷ 0 ∷ []);
  chase_clock = ticking;
  mlp_clock = λ k. ticking;
  disk_system = nines;
  disk_outside = outside;
  machine = machine;
  pages = both_pages;
}

abbrev plenty : ℕ
plenty = 1_000_000_000

timely : TimeIsUp ticking (ticking 0) (ms_to_ns (duration_of able_options)) 1 1
timely = rw short ticking-TimeIsUp

able : IsAble fixed_point counting singles quads plenty world host able_options
able = record {
  uniform = counting-IsUniform;
  more_threads = 1;
  threads = two_threads;
  threads_fit = omega arith;
  buffers_fit = rw half_giga (omega arith);
  buffers_room = λ i bytes. refl;
  ram_time =
      λ kind. record { rounds = λ t i. 1; ends = λ t i. timely; enough = λ t i. omega arith };
  chase_small = rw no_footprint (omega arith);
  fresh = 0 ∷ 0 ∷ [];
  fresh_room = refl;
  fresh_length = sym two_nodes;
  chase_rounds = 1;
  chase_time = timely;
  chase_enough = omega arith;
  mlp_rounds = λ k. 1;
  mlp_time = λ k. timely;
  mlp_enough = λ k. omega arith;
  disk_long = nines-FitsLong;
  disk_small = rw disk_half_giga (omega arith);
  disk_enough = rw disk_half_giga (omega arith);
  stream_rounds = 1;
  stream_time = timely;
  stream_enough = omega arith;
  random_rounds = 1;
  random_time = timely;
  random_enough = omega arith;
  floats_room = refl;
  bytes_room = refl;
  fma_rounds = 1;
  fma_time = timely;
  fma_enough = omega arith;
  vnni_rounds = 1;
  vnni_time = timely;
  vnni_enough = omega arith;
  pages_some = rw pages_half_giga (omega arith);
  pages_small = rw pages_half_giga (omega arith);
  pages_time = record {
    base_hops = 1;
    huge_hops = 1;
    base_passes = 1;
    huge_passes = 1;
    base_latency_up = timely;
    huge_latency_up = timely;
    base_seq_up = timely;
    huge_seq_up = timely;
    base_hops_lt = omega arith;
    huge_hops_lt = omega arith;
    base_passes_lt = omega arith;
    huge_passes_lt = omega arith;
  };
}

abbrev benches : Benches ℕ
benches = roofline_benches fixed_point counting singles quads plenty world host

benches-IsPlain : IsPlain benches.detect_cpu_info.model_name
unfolding roofline_benches
benches-IsPlain = refl

roofline_main_done_example :
    (r : Report ℕ) × (o : Outcome) × (main fixed_point benches host
        (codes "roofline")
        (compute ∷ able_args)
      ≡ done o)
    × IsRequested benches host able_options compute r
    × (o.exit_code ≡ pos 0)
    × Shows fixed_point benches host able_options (has able_options (codes "json")) o.stdout r
    × Saves fixed_point benches host able_options (has able_options (codes "out")) o.file r
roofline_main_done_example =
    roofline_main_done fixed_point counting singles quads plenty world host (codes "roofline")
      compute able_args thousandths-ShowsNumbers fixed_point-PrintsInline host-HasPlainDates
      compute-IsCommand able (requested-HasPlainStrings benches able_options benches-IsPlain)
