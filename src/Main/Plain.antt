-- ===== src/Main/Plain.antt =====
-- Strings of a report that have no control characters, and so no line breaks.
use llm_river.Base.{Option, none, some, [], ◌∷◌, Bytes, arith}
use llm_river.Json.Parse.{IsPlain, IsPlain-cons}
use llm_river.Main.Arguments.{Host}
use llm_river.Report.HumanLines.{OnPart, IsPrintable}
use llm_river.Report.Structs.{DiskBenchResult, HugepageBenchResult, Report}
use llm_river.Report.Valid.{HasPlainStrings}
use llm_river.Text.Lines.{IsLine}

-- The dates of a report's two prints have no control characters.
pub record HasPlainDates (host : Host) : Type 0 where
  pub file_date : IsPlain host.file_date
  pub stdout_date : IsPlain host.stdout_date

plain-IsLine : (s : Bytes) → IsPlain s → IsLine s
plain-IsLine [] h = tt
plain-IsLine (c ∷ s) h = let (shows, hs) = IsPlain-cons c s h in (ground arith, plain-IsLine s hs)

pub plain-IsPrintable {ℓ} : {F : Type ℓ} (r : Report F) → HasPlainStrings r → IsPrintable r
plain-IsPrintable {F} r h = record {
  model_name = plain-IsLine r.cpu.model_name h.model_name;
  disk_strings = on_disk r.disk h.disk_strings;
  hugepage_note = on_hugepage r.hugepage h.hugepage_note;
}
  where
    on_disk :
        (part : Option (DiskBenchResult F))
        → OnPart (λ d. IsPlain d.file_path × IsPlain d.note) part
        → OnPart (λ d. IsLine d.file_path × IsLine d.note) part
    on_disk none h = tt
    on_disk (some d) (path, note) = (plain-IsLine d.file_path path, plain-IsLine d.note note)

    on_hugepage :
        (part : Option (HugepageBenchResult F))
        → OnPart (λ p. IsPlain p.note) part
        → OnPart (λ p. IsLine p.note) part
    on_hugepage none h = tt
    on_hugepage (some p) note = plain-IsLine p.note note
