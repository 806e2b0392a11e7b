-- ===== src/Tests/Running.antt =====
-- main.cpp: `roofline compute --duration-ms=1 --json --out=r`, with benches as constants.
use llm_river.Base.Int.{pos}
use llm_river.Base.Run.{Run, done, stopped, undefined}
use llm_river.Base.{
  ℕ, ◌≡◌, ◌≢◌, refl, inl, inr, true, false, Option, none, List, [], ◌∷◌, Bytes, codes, str_eq,
}
use llm_river.Json.Parse.{IsPlain}
use llm_river.Main.Arguments.{Benches, Host}
use llm_river.Main.Asked.{Asks, IsCommand, ne_of_str_eq}
use llm_river.Main.Collected.{IsPart, IsRequested, Returns}
use llm_river.Main.Done.{Shows, Saves, main_done}
use llm_river.Main.Plain.{HasPlainDates}
use llm_river.Main.Usage.{main_usage, LacksCommand}
use llm_river.Main.{Outcome, print_usage, new_stream, main}
use llm_river.Options.{Options, has, parse_options}
use llm_river.Report.Structs.{Report, new_cpu_info}
use llm_river.Report.Valid.{HasPlainStrings}
use llm_river.Tests.Given.{thousandths-ShowsNumbers}
use llm_river.Tests.Printing.{fixed_point, fixed_point-PrintsInline}

abbrev pub compute : Bytes
compute = codes "compute"

abbrev args : List Bytes
args = codes "--duration-ms=1" ∷ codes "--json" ∷ codes "--out=r" ∷ []

abbrev pub host : Host
host = record {
  hardware_concurrency = 8;
  file_date = codes "2026-01-02T03:04:05Z";
  stdout_date = codes "2026-01-02T03:04:06Z";
}

pub compute-IsCommand : IsCommand compute
compute-IsCommand = IsCommand.compute refl

pub host-HasPlainDates : HasPlainDates host
host-HasPlainDates = record { file_date = refl; stdout_date = refl }

not_all : compute ≢ codes "all"
unfolding str_eq
not_all = ne_of_str_eq compute (codes "all") refl

not_ram : compute ≢ codes "ram"
unfolding str_eq
not_ram = ne_of_str_eq compute (codes "ram") refl

not_latency : compute ≢ codes "latency"
unfolding str_eq
not_latency = ne_of_str_eq compute (codes "latency") refl

not_disk : compute ≢ codes "disk"
unfolding str_eq
not_disk = ne_of_str_eq compute (codes "disk") refl

not_hugepage : compute ≢ codes "hugepage"
unfolding str_eq
not_hugepage = ne_of_str_eq compute (codes "hugepage") refl

refuted {ℓ} : {A : Type ℓ} (name : Bytes) → compute ≢ name → Asks compute name → A
refuted name ne (inl e) = absurd (not_all e)
refuted name ne (inr e) = absurd (ne e)

-- Benches of which only that of `compute` returns.
abbrev constant : Benches ℕ
constant = record {
  detect_cpu_info = new_cpu_info;
  run_ram_bench = λ _ _ _. stopped undefined;
  run_latency_bench = λ _ _ _. stopped undefined;
  run_disk_bench = λ _ _ _. stopped undefined;
  run_compute_bench = λ _. done (record {
    fp32_fma_available = true;
    fp32_fma_gflops = 50_000;
    int8_vnni_available = false;
    int8_vnni_gops = 0;
  });
  run_hugepage_bench = λ _ _. stopped undefined;
}

constant-Returns : Returns constant host (parse_options args) compute
constant-Returns = record {
  ram_returns = refuted _ not_ram;
  latency_returns = refuted _ not_latency;
  disk_returns = refuted _ not_disk;
  compute_returns = λ _. (_, refl);
  hugepage_returns = refuted _ not_hugepage;
}

no_part {ℓ} :
    {A : Type ℓ} (name : Bytes) (bench : Run A) (part : Option A)
    → compute ≢ name
    → IsPart compute name bench part
    → part ≡ none
no_part name bench part ne (inl (asks, _)) = refuted name ne asks
no_part name bench part ne (inr (_, _, e)) = e

pub requested-HasPlainStrings :
    (benches : Benches ℕ) (options : Options)
    → IsPlain benches.detect_cpu_info.model_name
    → (r : Report ℕ) → IsRequested benches host options compute r
    → HasPlainStrings r
requested-HasPlainStrings benches options name r q = record {
  model_name = rw q.cpu name;
  disk_strings = rw (no_part _ _ _ not_disk q.disk) tt;
  hugepage_note = rw (no_part _ _ _ not_hugepage q.hugepage) tt;
}

main_done_example :
    (r : Report ℕ) × (o : Outcome) × (main fixed_point constant host
        (codes "roofline")
        (compute ∷ args)
      ≡ done o)
    × IsRequested constant host (parse_options args) compute r
    × (o.exit_code ≡ pos 0)
    × Shows fixed_point constant host
        (parse_options args)
        (has (parse_options args) (codes "json"))
        o.stdout
        r
    × Saves fixed_point constant host
        (parse_options args)
        (has (parse_options args) (codes "out"))
        o.file
        r
main_done_example =
    main_done fixed_point constant host (codes "roofline") compute args thousandths-ShowsNumbers
      fixed_point-PrintsInline host-HasPlainDates compute-IsCommand constant-Returns
      (requested-HasPlainStrings constant (parse_options args) refl)

-- No name of a command is `gpu`.
gpu-LacksCommand : LacksCommand (codes "gpu" ∷ args)
unfolding str_eq
gpu-LacksCommand = (
  ne_of_str_eq (codes "gpu") (codes "all") refl,
  (
    ne_of_str_eq (codes "gpu") (codes "ram") refl,
    (
      ne_of_str_eq (codes "gpu") (codes "latency") refl,
      (
        ne_of_str_eq (codes "gpu") (codes "disk") refl,
        (
          ne_of_str_eq (codes "gpu") (codes "compute") refl,
          (ne_of_str_eq (codes "gpu") (codes "hugepage") refl, tt),
        ),
      ),
    ),
  ),
)

main_usage_example :
    main fixed_point constant host (codes "roofline") (codes "gpu" ∷ args)
    ≡ done (record {
      exit_code = pos 1;
      stdout = [];
      stderr = (print_usage fixed_point (codes "roofline") new_stream).text;
      file = none;
    })
main_usage_example =
    main_usage fixed_point constant host (codes "roofline") (codes "gpu" ∷ args) gpu-LacksCommand
