-- ===== src/Report/HumanLines.antt =====
-- The lines of the report for people, each as its items, and what must have no line break for that.
pub mod Memory
pub mod Devices
use llm_river.Base.{◌*◌, ◌/◌, not, Option, none, some, List, [], ◌∷◌, ◌++◌, if◌then◌else◌, Bytes}
use llm_river.Plateau.{back}
use llm_river.Report.HumanLines.Memory.{
  latency_lines, machine_lines, mlp_lines, ram_lines, scaling_lines, write_lines,
}
use llm_river.Report.HumanLines.Devices.{
  compared_lines, compute_lines, disk_lines, hugepage_lines, note_lines,
}
use llm_river.Report.Print.{Format, Item, chars, string, double, int, uint, bool}
use llm_river.Report.Structs.{
  CpuInfo, ThreadScalingPoint, RamBenchResult, MlpPoint, LatencyBenchResult, DiskBenchResult,
  ComputeBenchResult, HugepageBenchResult, Report,
}
use llm_river.Report.HumanLines.Memory.{
  latency_lines, machine_lines, mlp_lines, ram_lines, scaling_lines, write_lines,
}
use llm_river.Report.HumanLines.Devices.{
  compared_lines, compute_lines, disk_lines, hugepage_lines, note_lines,
}
use llm_river.Report.Print.{section, speed}
use llm_river.Report.WriteJson.{is_empty}
use llm_river.Text.Lines.{IsLine}

-- What holds of a part, if it is there.
abbrev pub OnPart {ℓ} : {A : Type ℓ} → (A → Type 0) → Option A → Type 0
OnPart P none = Unit
OnPart P (some a) = P a

-- The strings that a report for people shows have no line break.
pub record IsPrintable {ℓ} {F : Type ℓ} (r : Report F) : Type 0 where
  pub model_name : IsLine r.cpu.model_name
  pub disk_strings : OnPart (λ d. IsLine d.file_path × IsLine d.note) r.disk
  pub hugepage_note : OnPart (λ h. IsLine h.note) r.hugepage

module _ {ℓ} {F : Type ℓ} (format : Format F) where
  abbrev pub part_lines {κ} :
      {A : Type κ} → (A → List (List (Item F))) → Option A → List (List (Item F))
  part_lines f none = []
  part_lines f (some a) = f a

  -- A part has lines exactly if it is there.
  abbrev pub human_lines : Report F → List (List (Item F))
  human_lines r =
      machine_lines format r.cpu
      ++ (part_lines (ram_lines format) r.ram
          ++ (part_lines (latency_lines format) r.latency
              ++ (part_lines (disk_lines format) r.disk
                  ++ (part_lines (compute_lines format) r.compute
                      ++ part_lines (hugepage_lines format) r.hugepage))))
