-- ===== src/Report/Human.antt =====
-- `write_human` of tools/roofline/src/report.cpp prints its lines.
use llm_river.Base.{
  Bool, true, not, Option, none, some, List, [], ◌∷◌, ◌++◌, ◌≡◌, refl, ap, sym, append-nil, Bytes,
}
use llm_river.Plateau.{back}
use llm_river.Report.HumanLines.Memory.{
  machine_lines, scaling_lines, write_lines, ram_lines, mlp_lines, latency_lines,
}
use llm_river.Report.HumanLines.Devices.{note_lines, disk_lines, compute_lines, hugepage_lines}
use llm_river.Report.HumanLines.{OnPart, IsPrintable, part_lines, human_lines}
use llm_river.Report.Inline.{PrintsInline, gbs-IsLine}
use llm_river.Report.Print.{Format, Item, chars, string, Printing, ◌>>◌, when, set_fixed, say, gbs}
use llm_river.Report.Says.{
  Says, nothing-Says, seq-Says, say-Says, when-Says, if-Says, line, heading,
}
use llm_river.Report.Structs.{
  CpuInfo, ThreadScalingPoint, RamBenchResult, MlpPoint, LatencyBenchResult, DiskBenchResult,
  ComputeBenchResult, HugepageBenchResult, Report,
}
use llm_river.Report.WriteHuman.Memory.{
  human_machine, human_scaling, human_writes, human_ram, human_mlp, human_latency,
}
use llm_river.Report.WriteHuman.Devices.{human_disk, human_compute, human_hugepage}
use llm_river.Report.WriteHuman.{if_there, write_human}
use llm_river.Report.WriteJson.{is_empty}
use llm_river.Text.Lines.{IsLine}

pub sign : IsLine (0xc2 ∷ 0xa7 ∷ [])
sign = (refl, (refl, tt))

module _ {ℓ} {F : Type ℓ} (format : Format F) (prints : PrintsInline format) where
  infixr 5 ◌⨟◌
  ◌⨟◌ :
      {a b : Printing} {xs ys : List (List (Item F))}
      → Says format a xs
      → Says format b ys
      → Says format (a >> b) (xs ++ ys)
  p ⨟ q = seq-Says format p q

  speed-IsLine : (v : F) → IsLine (gbs format v)
  speed-IsLine = gbs-IsLine format prints

  human_machine-Says :
      (cpu : CpuInfo)
      → IsLine cpu.model_name
      → Says format (human_machine format cpu) (machine_lines format cpu)
  unfolding human_machine
  human_machine-Says cpu h =
      line format _ _ refl refl tt
      ⨟ line format _ _ refl refl (h, tt)
      ⨟ line format _ _ refl refl tt
      ⨟ line format _ _ refl refl tt
      ⨟ line format _ _ refl refl tt

  human_scaling-Says :
      (ps : List (ThreadScalingPoint F))
      → Says format (human_scaling format ps) (scaling_lines format ps)
  unfolding human_scaling
  human_scaling-Says [] = nothing-Says format
  human_scaling-Says (p ∷ ps) =
      line format _ _ refl refl (speed-IsLine p.aggregate_gbs, (speed-IsLine p.per_thread_gbs, tt))
      ⨟ human_scaling-Says ps

  human_writes-Says :
      (p n : Option (ThreadScalingPoint F))
      → Says format (human_writes format p n) (write_lines format p n)
  unfolding human_writes
  human_writes-Says (some p) (some n) =
      line format _ _ refl refl (speed-IsLine p.aggregate_gbs, tt)
      ⨟ line format _ _ refl refl (speed-IsLine n.aggregate_gbs, tt)
      ⨟ when-Says format _ (line format _ _ refl refl (sign, tt))
  human_writes-Says none q = nothing-Says format
  human_writes-Says (some p) none = nothing-Says format

  human_ram-Says : (r : RamBenchResult F) → Says format (human_ram format r) (ram_lines format r)
  unfolding human_ram
  human_ram-Says r =
      heading format _ _ refl refl tt
      ⨟ line format _ _ refl refl (speed-IsLine r.single_thread_read_gbs, (sign, tt))
      ⨟ line format _ _ refl refl tt
      ⨟ human_scaling-Says r.read_scaling
      ⨟ line format _ _ refl refl (speed-IsLine r.read_saturation_gbs, tt)
      ⨟ human_writes-Says (back r.write_plain_scaling) (back r.write_nt_scaling)

  human_mlp-Says :
      (ps : List (MlpPoint F)) → Says format (human_mlp format ps) (mlp_lines format ps)
  unfolding human_mlp
  human_mlp-Says [] = nothing-Says format
  human_mlp-Says (p ∷ ps) =
      line format _ _ refl refl (speed-IsLine p.bandwidth_gbs, tt) ⨟ human_mlp-Says ps

  human_latency-Says :
      (r : LatencyBenchResult F) → Says format (human_latency format r) (latency_lines format r)
  unfolding human_latency
  human_latency-Says r =
      heading format _ _ refl refl (sign, tt)
      ⨟ line format _ _ refl refl tt
      ⨟ line format _ _ refl refl tt
      ⨟ human_mlp-Says r.mlp_scaling
      ⨟ line format _ _ refl refl (speed-IsLine r.mlp_plateau_bandwidth_gbs, tt)
      ⨟ line format _ _ refl refl tt

  note-Says :
      (note : Bytes)
      → IsLine note
      → Says format
          (when
            (not (is_empty note))
            (say format (chars "  note: " ∷ string note ∷ chars "\n" ∷ [])))
          (note_lines note)
  note-Says note h = when-Says format _ (line format _ _ refl refl (h, tt))

  human_disk-Says :
      (r : DiskBenchResult F)
      → IsLine r.file_path
      → IsLine r.note
      → Says format (human_disk format r) (disk_lines format r)
  unfolding human_disk
  human_disk-Says r path note =
      heading format _ _ refl refl tt
      ⨟ line format _ _ refl refl (path, tt)
      ⨟ note-Says r.note note
      ⨟ line format _ _ refl refl (speed-IsLine r.sequential_read_gbs, tt)
      ⨟ line format _ _ refl refl tt
      ⨟ line format _ _ refl refl (sign, tt)

  human_compute-Says :
      (r : ComputeBenchResult F) → Says format (human_compute format r) (compute_lines format r)
  unfolding human_compute
  human_compute-Says r =
      heading format _ _ refl refl (sign, tt)
      ⨟ if-Says format r.fp32_fma_available (line format _ _ refl refl tt)
          (line format _ _ refl refl tt)
      ⨟ if-Says format r.int8_vnni_available (line format _ _ refl refl tt)
          (line format _ _ refl refl tt)

  human_hugepage-Says :
      (r : HugepageBenchResult F)
      → IsLine r.note
      → Says format (human_hugepage format r) (hugepage_lines format r)
  unfolding human_hugepage
  human_hugepage-Says r note =
      heading format _ _ refl refl (sign, tt)
      ⨟ if-Says format (not r.ran) (line format _ _ refl refl (note, tt)) (
          line format _ _ refl refl tt
          ⨟ line format _ _ refl refl tt
          ⨟ line format _ _ refl refl tt
          ⨟ line format _ _ refl refl tt
          ⨟ line format _ _ refl refl tt
          ⨟ line format _ _ refl refl tt
          ⨟ say-Says format _ (_ ∷ _ ∷ []) refl refl tt
          ⨟ note-Says r.note note)

  if_there-Says {κ} :
      {A : Type κ} (P : A → Type 0) (print : A → Printing) (f : A → List (List (Item F)))
      (part : Option A)
      → OnPart P part
      → ((a : A) → P a → Says format (print a) (f a))
      → Says format (if_there format print part) (part_lines format f part)
  if_there-Says P print f none ok h = nothing-Says format
  if_there-Says P print f (some a) ok h = h a ok

  -- A part that shows no strings.
  if_any-Says {κ} :
      {A : Type κ} (print : A → Printing) (f : A → List (List (Item F))) (part : Option A)
      → ((a : A) → Says format (print a) (f a))
      → Says format (if_there format print part) (part_lines format f part)
  if_any-Says print f none h = nothing-Says format
  if_any-Says print f (some a) h = h a

  set_fixed-Says : Says format set_fixed []
  unfolding set_fixed
  set_fixed-Says = record {
    says = λ t. ap (λ u. record { text = u; fixed = true }) (sym (append-nil t));
    is_plain = refl;
    string_lines = tt;
  }

  pub write_human-Says :
      (r : Report F) → IsPrintable r → Says format (write_human format r) (human_lines format r)
  unfolding write_human
  write_human-Says r ok =
      set_fixed-Says
      ⨟ human_machine-Says r.cpu ok.model_name
      ⨟ if_any-Says _ _ r.ram human_ram-Says
      ⨟ if_any-Says _ _ r.latency human_latency-Says
      ⨟ if_there-Says _ _ _ r.disk ok.disk_strings (λ d h. human_disk-Says d h.0 h.1)
      ⨟ if_any-Says _ _ r.compute human_compute-Says
      ⨟ if_there-Says _ _ _ r.hugepage ok.hugepage_note human_hugepage-Says

  -- The notation that the stream had before does not matter.
  pub write_human-set_fixed :
      (r : Report F) (t : Bytes) (b : Bool)
      → write_human format r (record { text = t; fixed = b })
        ≡ write_human format r (record { text = t; fixed = true })
  unfolding write_human ◌>>◌ set_fixed
  write_human-set_fixed r t b = refl
