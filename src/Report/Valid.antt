-- ===== src/Report/Valid.antt =====
-- What `write_json` writes is a document that a strict JSON reader reads back whole, if no string of the
-- report has a control character, which the writer does not escape.
use llm_river.Base.Decimal.{show_ℕ, show_ℤ}
use llm_river.Base.Int.{ℤ}
use llm_river.Base.{
  ℕ, Bool, true, false, Option, none, some, List, [], ◌∷◌, ◌++◌, ◌≡◌, refl, arith, Bytes, codes,
  Bool-cases, inl, inr,
}
use llm_river.Float.{Float}
use llm_river.Json.Document.{Json, Members, token, render}
use llm_river.Json.Number.{is_number, is_number-show_ℕ, is_number-show_ℤ}
use llm_river.Json.Parse.RoundTrip.{parse, parse-render}
use llm_river.Json.Parse.WellFormed.{
  IsWellFormed, of_text, of_token, of_array, of_object, AreItems, no_items, more_items, AreMembers,
  no_members, more_members,
}
use llm_river.Json.Parse.{is_json_token, IsPlain, number-IsToken}
use llm_river.Report.Document.{
  of_uint, of_int, of_bool, of_double, note_member, part_member, cpu_json, point_json, points_json,
  ram_json, mlp_json, mlps_json, latency_json, disk_json, compute_json, hugepage_json, report_json,
}
use llm_river.Report.HumanLines.{OnPart}
use llm_river.Report.Structs.{
  CpuInfo, ThreadScalingPoint, RamBenchResult, MlpPoint, LatencyBenchResult, DiskBenchResult,
  ComputeBenchResult, HugepageBenchResult, Report,
}
use llm_river.Report.WriteJson.{write_json}
use llm_river.Report.WriteJsonLaws.{write_json-report_json}

uint-IsWellFormed : (n : ℕ) → IsWellFormed (of_uint n)
uint-IsWellFormed n = of_token (number-IsToken (show_ℕ n) (is_number-show_ℕ n))

int-IsWellFormed : (v : ℤ) → IsWellFormed (of_int v)
int-IsWellFormed v = of_token (number-IsToken (show_ℤ v) (is_number-show_ℤ v))

null-IsWellFormed : IsWellFormed (token (codes "null"))
unfolding is_json_token
null-IsWellFormed = of_token ((λ e. cc), ground arith, refl)

bool-IsWellFormed : (b : Bool) → IsWellFormed (of_bool b)
unfolding is_json_token
bool-IsWellFormed true = of_token ((λ e. cc), ground arith, refl)
bool-IsWellFormed false = of_token ((λ e. cc), ground arith, refl)

any_part {κ} : {A : Type κ} (part : Option A) → OnPart (λ _. Unit) part
any_part none = tt
any_part (some a) = tt

note-AreMembers :
    (note : Bytes) {ms : Members} → IsPlain note → AreMembers ms → AreMembers (note_member note ms)
note-AreMembers [] plain h = h
note-AreMembers (c ∷ note) plain h = more_members refl (of_text plain) h

part-AreMembers {κ} :
    {A : Type κ} (k : Bytes) (json : A → Json) (part : Option A) {ms : Members} (P : A → Type 0)
    → IsPlain k
    → OnPart P part
    → ((a : A) → P a → IsWellFormed (json a))
    → AreMembers ms
    → AreMembers (part_member k json part ms)
part-AreMembers k json none P plain on each h = h
part-AreMembers k json (some a) P plain on each h = more_members plain (each a on) h

ruleset members = (
  of_object, no_members, more_members, of_text, uint-IsWellFormed, int-IsWellFormed,
  bool-IsWellFormed, note-AreMembers,
)

cpu-IsWellFormed : (c : CpuInfo) → IsPlain c.model_name → IsWellFormed (cpu_json c)
unfolding cpu_json
cpu-IsWellFormed c plain = search members depth 20

-- A finite double is printed as a number of JSON, as `operator<<` does by default.
pub record ShowsNumbers {ℓ} {F : Type ℓ} (float : Float F) : Type ℓ where
  pub number_of :
      (v : F) → float.is_nan v ≡ false → float.is_inf v ≡ false → is_number (float.show v) ≡ true

-- The strings that a report shows have no control characters.
pub record HasPlainStrings {ℓ} {F : Type ℓ} (r : Report F) : Type 0 where
  pub model_name : IsPlain r.cpu.model_name
  pub disk_strings : OnPart (λ d. IsPlain d.file_path × IsPlain d.note) r.disk
  pub hugepage_note : OnPart (λ h. IsPlain h.note) r.hugepage

module _ {ℓ} {F : Type ℓ} (float : Float F) (shows : ShowsNumbers float) where
  open shows use {number_of}

  double-IsWellFormed : (v : F) → IsWellFormed (of_double float v)
  double-IsWellFormed v = elim (Bool-cases (float.is_nan v)) [
    | inl e ↦ rw e null-IsWellFormed
    | inr nan ↦ elim (Bool-cases (float.is_inf v)) [
      | inl e ↦ rw (nan, e) null-IsWellFormed
      | inr inf ↦ rw (nan, inf) (of_token (number-IsToken (float.show v) (number_of v nan inf)))
    ]
  ]

  points-AreItems : (ps : List (ThreadScalingPoint F)) → AreItems (points_json float ps)
  unfolding points_json point_json
  points-AreItems [] = no_items
  points-AreItems (p ∷ ps) =
      more_items (search (members, double-IsWellFormed) depth 20) (points-AreItems ps)

  mlps-AreItems : (ps : List (MlpPoint F)) → AreItems (mlps_json float ps)
  unfolding mlps_json mlp_json
  mlps-AreItems [] = no_items
  mlps-AreItems (p ∷ ps) =
      more_items (search (members, double-IsWellFormed) depth 20) (mlps-AreItems ps)

  ram-IsWellFormed : (r : RamBenchResult F) → IsWellFormed (ram_json float r)
  unfolding ram_json
  ram-IsWellFormed r = search (members, double-IsWellFormed, of_array, points-AreItems) depth 20

  latency-IsWellFormed : (r : LatencyBenchResult F) → IsWellFormed (latency_json float r)
  unfolding latency_json
  latency-IsWellFormed r = search (members, double-IsWellFormed, of_array, mlps-AreItems) depth 20

  disk-IsWellFormed :
      (r : DiskBenchResult F)
      → IsPlain r.file_path × IsPlain r.note
      → IsWellFormed (disk_json float r)
  unfolding disk_json
  disk-IsWellFormed r (path, note) = search (members, double-IsWellFormed) depth 20

  compute-IsWellFormed : (r : ComputeBenchResult F) → IsWellFormed (compute_json float r)
  unfolding compute_json
  compute-IsWellFormed r = search (members, double-IsWellFormed) depth 20

  hugepage-IsWellFormed :
      (r : HugepageBenchResult F) → IsPlain r.note → IsWellFormed (hugepage_json float r)
  unfolding hugepage_json
  hugepage-IsWellFormed r note = search (members, double-IsWellFormed) depth 20

  report-IsWellFormed :
      (now : Bytes) (r : Report F)
      → IsPlain now
      → HasPlainStrings r
      → IsWellFormed (report_json float now r)
  unfolding report_json
  report-IsWellFormed now r date plain = of_object (
      more_members refl (of_text date) (
        more_members refl (cpu-IsWellFormed r.cpu plain.model_name) (
          part-AreMembers _ (ram_json float) r.ram (λ _. Unit) refl (any_part r.ram)
            (λ a _. ram-IsWellFormed a)
            (part-AreMembers _ (latency_json float) r.latency (λ _. Unit) refl (any_part r.latency)
              (λ a _. latency-IsWellFormed a)
              (part-AreMembers _ (disk_json float) r.disk _ refl plain.disk_strings
                disk-IsWellFormed
                (part-AreMembers _ (compute_json float) r.compute (λ _. Unit) refl
                  (any_part r.compute) (λ a _. compute-IsWellFormed a)
                  (part-AreMembers _ (hugepage_json float) r.hugepage _ refl plain.hugepage_note
                    hugepage-IsWellFormed no_members)))))))

  -- If the date and the report's strings have no control character, `write_json` appends to the stream a
  -- text that a strict JSON reader reads back, whole up to the last line break, as the document of the
  -- report: every field under its key, an optional part exactly if it is there. It relies on the print of
  -- a finite double being a number of JSON.
  pub parse-write_json :
      (out now : Bytes) (report : Report F)
      → IsPlain now
      → HasPlainStrings report
      → (written : Bytes) × (write_json float out now report ≡ some (out ++ written))
        × (parse written ≡ some (report_json float now report, b'\n' ∷ []))
  parse-write_json out now report date plain = (
    render (report_json float now report) (b'\n' ∷ []),
    write_json-report_json float out now report,
    parse-render (b'\n' ∷ []) (report-IsWellFormed now report date plain) refl,
  )
