-- ===== src/Report/WriteHuman.antt =====
-- `write_human` of tools/roofline/src/report.cpp, with a function for each part of the report below.
pub mod Memory
pub mod Devices
use llm_river.Base.{◌*◌, ◌/◌, not, Option, none, some, List, [], ◌∷◌, if◌then◌else◌}
use llm_river.Plateau.{back}
use llm_river.Report.Print.{
  Format, Item, chars, string, double, int, uint, bool, Printing, ◌>>◌, nothing, when, set_fixed,
  say, gbs,
}
use llm_river.Report.Structs.{
  CpuInfo, ThreadScalingPoint, RamBenchResult, MlpPoint, LatencyBenchResult, DiskBenchResult,
  ComputeBenchResult, HugepageBenchResult, Report,
}
use llm_river.Report.WriteHuman.Memory.{
  human_latency, human_machine, human_mlp, human_ram, human_scaling, human_writes,
}
use llm_river.Report.WriteHuman.Devices.{human_compute, human_disk, human_hugepage}
use llm_river.Report.WriteJson.{is_empty}

module _ {ℓ} {F : Type ℓ} (format : Format F) where
  -- `if (report.part) { … }`
  abbrev pub if_there {κ} : {A : Type κ} → (A → Printing) → Option A → Printing
  if_there print none = nothing
  if_there print (some a) = print a

  unfoldable pub write_human : Report F → Printing
  write_human report = do
    set_fixed
    human_machine format report.cpu
    if_there (human_ram format) report.ram
    if_there (human_latency format) report.latency
    if_there (human_disk format) report.disk
    if_there (human_compute format) report.compute
    if_there (human_hugepage format) report.hugepage
