-- ===== src/Main/Collected.antt =====
-- The report that `main` of tools/roofline/src/main.cpp collects for a command.
use llm_river.Base.Run.{Run, done}
use llm_river.Base.{Option, none, some, ◌≡◌, ◌≢◌, refl, Bytes, codes, ◌⊎◌, inl, inr}
use llm_river.Main.Arguments.{
  Benches, Host, main_ram, main_latency, main_disk, main_compute, main_hugepage,
}
use llm_river.Main.Asked.{Asks, wants_cases}
use llm_river.Main.{
  wants, note_ram, note_latency, note_disk, note_compute, note_hugepage, collect, if_wanted,
}
use llm_river.Options.{Options}
use llm_river.Report.Print.{Format, Stream, Printing}
use llm_river.Report.Structs.{
  RamBenchResult, LatencyBenchResult, DiskBenchResult, ComputeBenchResult, HugepageBenchResult,
  Report,
}

-- The part of a report for the bench of a name: its result, if the command asks for it, or nothing, if the
-- command is neither `all` nor that name.
abbrev pub IsPart {ℓ} : {A : Type ℓ} → Bytes → Bytes → Run A → Option A → Type ℓ
IsPart {A} cmd name bench part =
    (Asks cmd name × ((a : A) × (bench ≡ done a) × (part ≡ some a)))
    ⊎ ((cmd ≢ codes "all") × (cmd ≢ name) × (part ≡ none))

module _ {ℓ} {F : Type ℓ} (benches : Benches F) (host : Host) (options : Options)
    (cmd : Bytes) where
  -- The report that a command asks for.
  pub record IsRequested (r : Report F) : Type ℓ where
    pub cpu : r.cpu ≡ benches.detect_cpu_info
    pub ram : IsPart cmd (codes "ram") (main_ram benches host options) r.ram
    pub latency : IsPart cmd (codes "latency") (main_latency benches host options) r.latency
    pub disk : IsPart cmd (codes "disk") (main_disk benches host options) r.disk
    pub compute : IsPart cmd (codes "compute") (main_compute benches host options) r.compute
    pub hugepage : IsPart cmd (codes "hugepage") (main_hugepage benches host options) r.hugepage

  -- Each bench that the command asks for returns, with the arguments that it is called with.
  pub record Returns : Type ℓ where
    pub ram_returns :
        Asks cmd (codes "ram") → (r : RamBenchResult F) × (main_ram benches host options ≡ done r)
    pub latency_returns :
        Asks cmd (codes "latency")
        → (r : LatencyBenchResult F) × (main_latency benches host options ≡ done r)
    pub disk_returns :
        Asks cmd (codes "disk")
        → (r : DiskBenchResult F) × (main_disk benches host options ≡ done r)
    pub compute_returns :
        Asks cmd (codes "compute")
        → (r : ComputeBenchResult F) × (main_compute benches host options ≡ done r)
    pub hugepage_returns :
        Asks cmd (codes "hugepage")
        → (r : HugepageBenchResult F) × (main_hugepage benches host options ≡ done r)

if_wanted_done {ℓ} :
    {A : Type ℓ} (cmd name : Bytes) (bench : Run A) (note : Printing) (err : Stream)
    → (Asks cmd name → (a : A) × (bench ≡ done a))
    → (part : Option A) × (err' : Stream) × (if_wanted (wants cmd name) bench note err
        ≡ done (part, err'))
      × IsPart cmd name bench part
if_wanted_done cmd name bench note err h = elim (wants_cases cmd name) [
  | inl (e, asks) ↦
      let (a, ran) = h asks in (some a, note err, rw (e, ran) refl, inl (asks, (a, ran, refl)))
  | inr (e, not_all, other) ↦ (none, err, rw e refl, inr (not_all, other, refl))
]

module _ {ℓ} {F : Type ℓ} (format : Format F) (benches : Benches F) (host : Host)
    (options : Options) where
  pub collect-IsRequested :
      (cmd : Bytes) (err : Stream)
      → Returns benches host options cmd
      → (r : Report F) × (err' : Stream) × (collect format benches host options cmd err
          ≡ done (r, err'))
        × IsRequested benches host options cmd r
  unfolding collect
  collect-IsRequested cmd err t =
      let (ram, err₁, ran₁, part₁) =
        if_wanted_done cmd (codes "ram") _ (note_ram format host options) err t.ram_returns in
      let (latency, err₂, ran₂, part₂) =
        if_wanted_done cmd (codes "latency") _ (note_latency format options) err₁
          t.latency_returns in
      let (disk, err₃, ran₃, part₃) =
        if_wanted_done cmd (codes "disk") _ (note_disk format options) err₂ t.disk_returns in
      let (compute, err₄, ran₄, part₄) =
        if_wanted_done cmd (codes "compute") _ (note_compute format) err₃ t.compute_returns in
      let (hugepage, err₅, ran₅, part₅) =
        if_wanted_done cmd (codes "hugepage") _ (note_hugepage format options) err₄
          t.hugepage_returns in
      (
        record {
          cpu = benches.detect_cpu_info;
          ram = ram;
          latency = latency;
          disk = disk;
          compute = compute;
          hugepage = hugepage;
        },
        err₅,
        rw (ran₁, ran₂, ran₃, ran₄, ran₅, collect) refl,
        record {
          cpu = refl;
          ram = part₁;
          latency = part₂;
          disk = part₃;
          compute = part₄;
          hugepage = part₅;
        },
      )
