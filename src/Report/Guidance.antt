-- ===== src/Report/Guidance.antt =====
-- `write_guidance` of tools/roofline/src/report.cpp, and the report for people as a whole.
use mathlib.Core.List.{map}
use llm_river.Base.{
  ℕ, Bool, Option, none, some, List, [], ◌∷◌, ◌++◌, ◌≡◌, refl, ap, ◌∙◌, if◌then◌else◌,
}
use llm_river.Report.Human.{sign, write_human-Says, write_human-set_fixed}
use llm_river.Report.HumanLines.{IsPrintable, human_lines}
use llm_river.Report.Inline.{PrintsInline, lines-Says}
use llm_river.Report.Print.{Format, Item, chars, double, int, Printing, ◌>>◌}
use llm_river.Report.Says.{
  Says, nothing-Says, seq-Says, say-Says, if-Says, line_text, line, heading,
}
use llm_river.Report.Structs.{RamBenchResult, Report}
use llm_river.Report.WriteGuidance.{guidance_rows, guidance_measured, guidance_of, write_guidance}
use llm_river.Report.Print.{section}
use llm_river.Report.WriteHuman.{write_human}
use llm_river.Text.{lines}

module _ {ℓ} {F : Type ℓ} (format : Format F) where
  open format use {float}

  abbrev pub row_lines : F → List ℕ → List (List (Item F))
  row_lines bw [] = []
  row_lines bw (gb ∷ gbs) =
      (chars "    "
        ∷ double (float.of_ℕ gb)
        ∷ chars " GB read/token -> "
        ∷ double (float.div bw (float.of_ℕ gb))
        ∷ chars " tok/s"
        ∷ [])
      ∷ row_lines bw gbs

  abbrev pub rule_lines : List (List (Item F))
  rule_lines =
      (chars "  Rules measured on this hardware class:" ∷ [])
      ∷ (chars "   - threads: use PHYSICAL core count; SMT siblings share line-fill" ∷ [])
      ∷ (chars "     buffers and cost ~6% on bandwidth-bound decode." ∷ [])
      ∷ (chars "   - do NOT quantize the KV cache: -35% at 4K depth. Long-context" ∷ [])
      ∷ (chars "     attention is compute-bound, so dequant costs more than the" ∷ [])
      ∷ (chars "     bytes save." ∷ [])
      ∷ (chars "   - do NOT pair speculative decoding with an MoE: verifying N" ∷ [])
      ∷ (chars "     draft tokens reads the union of N expert sets, not one set." ∷ [])
      ∷ (chars "   - smaller quantization wins at batch=1 and LOSES when batched;" ∷ [])
      ∷ (chars "     the crossover sat between batch 4 and 16." ∷ [])
      ∷ (chars "   - batching saturates ~16 sequences (~3.7x aggregate, dense)." ∷ [])
      ∷ (chars "   - long context wants MLA or sliding-window attention; plain" ∷ [])
      ∷ (chars "     full-attention MoE decayed -91% from 0 to 16K tokens." ∷ [])
      ∷ []

  -- The decode ceilings of 1, 2, 4, 8 and 16 GB per token: the bandwidth over the gigabytes.
  abbrev pub measured_lines : RamBenchResult F → List (List (Item F))
  measured_lines ram =
      (chars "  sustained read bandwidth: "
        ∷ double ram.read_saturation_gbs
        ∷ chars " GB/s (at "
        ∷ int ram.read_saturation_threads
        ∷ chars " threads)"
        ∷ [])
      ∷ (chars "  predicted batch=1 decode ceiling:" ∷ [])
      ∷ (row_lines ram.read_saturation_gbs (1 ∷ 2 ∷ 4 ∷ 8 ∷ 16 ∷ [])
          ++ (chars "  for 10 tok/s, keep bytes-read-per-token under "
              ∷ double (float.div ram.read_saturation_gbs (float.of_ℕ 10))
              ∷ chars " GB"
              ∷ [])
            ∷ []
            ∷ (chars "  A dense model reads its whole file every token. An MoE reads" ∷ [])
            ∷ (chars "  only its active experts -- measure, do not assume: Qwen3-30B-A3B" ∷ [])
            ∷ (chars "  measured 2.38 GB/token out of an 18.6 GB file." ∷ [])
            ∷ []
            ∷ rule_lines)

  -- With no read bandwidth above 0, there is nothing to guide by.
  abbrev pub advice_lines : Option (RamBenchResult F) → List (List (Item F))
  advice_lines none = (chars "  needs the 'ram' bench to have run." ∷ []) ∷ []
  advice_lines (some ram) =
      if float.le ram.read_saturation_gbs (float.of_ℕ 0)
      then (chars "  needs the 'ram' bench to have run." ∷ []) ∷ []
      else measured_lines ram

  abbrev pub guidance_lines : Report F → List (List (Item F))
  guidance_lines r =
      []
      ∷ (chars "=== Model selection guidance (" ∷ section ∷ chars "I.5 control layer) ===" ∷ [])
      ∷ advice_lines r.ram

  infixr 5 ◌⨟◌
  ◌⨟◌ :
      {a b : Printing} {xs ys : List (List (Item F))}
      → Says format a xs
      → Says format b ys
      → Says format (a >> b) (xs ++ ys)
  p ⨟ q = seq-Says format p q

  guidance_rows-Says :
      (bw : F) (gbs : List ℕ) → Says format (guidance_rows format bw gbs) (row_lines bw gbs)
  unfolding guidance_rows
  guidance_rows-Says bw [] = nothing-Says format
  guidance_rows-Says bw (gb ∷ gbs) = line format _ _ refl refl tt ⨟ guidance_rows-Says bw gbs

  guidance_measured-Says :
      (ram : RamBenchResult F) → Says format (guidance_measured format ram) (measured_lines ram)
  unfolding guidance_measured
  guidance_measured-Says ram =
      line format _ _ refl refl tt
      ⨟ line format _ _ refl refl tt
      ⨟ guidance_rows-Says ram.read_saturation_gbs (1 ∷ 2 ∷ 4 ∷ 8 ∷ 16 ∷ [])
      ⨟ line format _ _ refl refl tt
      ⨟ say-Says format _ (_ ∷ _ ∷ _ ∷ _ ∷ []) refl refl tt
      ⨟ say-Says format _ ([] ∷ rule_lines) refl refl tt

  guidance_of-Says :
      (ram : Option (RamBenchResult F)) → Says format (guidance_of format ram) (advice_lines ram)
  guidance_of-Says none = line format _ _ refl refl tt
  guidance_of-Says (some ram) =
      if-Says format (float.le ram.read_saturation_gbs (float.of_ℕ 0))
        (line format _ _ refl refl tt) (guidance_measured-Says ram)

  write_guidance-Says : (r : Report F) → Says format (write_guidance format r) (guidance_lines r)
  unfolding write_guidance
  write_guidance-Says r = heading format _ _ refl refl (sign, tt) ⨟ guidance_of-Says r.ram

  pub lines-write_guidance :
      (report : Report F) (fixed : Bool)
      → PrintsInline format
      → IsPrintable report
      → lines
          (write_guidance format report
            (write_human format report (record { text = []; fixed = fixed }))).text
        ≡ map (line_text format) (human_lines format report ++ guidance_lines report)
  lines-write_guidance report fixed prints ok =
      let both : Says format (write_human format report >> write_guidance format report)
          (human_lines format report ++ guidance_lines report) =
        write_human-Says format prints report ok ⨟ write_guidance-Says report in
      ap (λ out. lines (write_guidance format report out).text)
        (write_human-set_fixed format prints report [] fixed)
      ∙ (unfold ◌>>◌ in lines-Says format prints both)
