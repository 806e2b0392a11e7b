-- ===== src/Report/WriteGuidance.antt =====
-- `write_guidance` of tools/roofline/src/report.cpp.
use llm_river.Base.{ℕ, Option, none, some, List, [], ◌∷◌, if◌then◌else◌}
use llm_river.Report.Print.{Format, chars, double, int, Printing, ◌>>◌, nothing, say}
use llm_river.Report.Structs.{RamBenchResult, Report}
use llm_river.Report.Print.{section}

module _ {ℓ} {F : Type ℓ} (format : Format F) where
  open format use {float}

  -- The loop over the gigabytes that a token reads.
  unfoldable pub guidance_rows : F → List ℕ → Printing
  guidance_rows bw [] = nothing
  guidance_rows bw (gb ∷ gbs) = do
    say format (
        chars "    "
        ∷ double (float.of_ℕ gb)
        ∷ chars " GB read/token -> "
        ∷ double (float.div bw (float.of_ℕ gb))
        ∷ chars " tok/s\n"
        ∷ [])
    guidance_rows bw gbs

  unfoldable pub guidance_measured : RamBenchResult F → Printing
  guidance_measured ram = do
    let bw = ram.read_saturation_gbs
    say format (
        chars "  sustained read bandwidth: "
        ∷ double bw
        ∷ chars " GB/s (at "
        ∷ int ram.read_saturation_threads
        ∷ chars " threads)\n"
        ∷ [])
    say format (chars "  predicted batch=1 decode ceiling:\n" ∷ [])
    guidance_rows bw (1 ∷ 2 ∷ 4 ∷ 8 ∷ 16 ∷ [])
    say format (
        chars "  for 10 tok/s, keep bytes-read-per-token under "
        ∷ double (float.div bw (float.of_ℕ 10))
        ∷ chars " GB\n"
        ∷ [])
    say format (
        chars "\n  A dense model reads its whole file every token. An MoE reads\n"
        ∷ chars "  only its active experts -- measure, do not assume: Qwen3-30B-A3B\n"
        ∷ chars "  measured 2.38 GB/token out of an 18.6 GB file.\n"
        ∷ [])
    say format (
        chars "\n  Rules measured on this hardware class:\n"
        ∷ chars "   - threads: use PHYSICAL core count; SMT siblings share line-fill\n"
        ∷ chars "     buffers and cost ~6% on bandwidth-bound decode.\n"
        ∷ chars "   - do NOT quantize the KV cache: -35% at 4K depth. Long-context\n"
        ∷ chars "     attention is compute-bound, so dequant costs more than the\n"
        ∷ chars "     bytes save.\n"
        ∷ chars "   - do NOT pair speculative decoding with an MoE: verifying N\n"
        ∷ chars "     draft tokens reads the union of N expert sets, not one set.\n"
        ∷ chars "   - smaller quantization wins at batch=1 and LOSES when batched;\n"
        ∷ chars "     the crossover sat between batch 4 and 16.\n"
        ∷ chars "   - batching saturates ~16 sequences (~3.7x aggregate, dense).\n"
        ∷ chars "   - long context wants MLA or sliding-window attention; plain\n"
        ∷ chars "     full-attention MoE decayed -91% from 0 to 16K tokens.\n"
        ∷ [])

  abbrev pub guidance_without : Printing
  guidance_without = say format (chars "  needs the 'ram' bench to have run.\n" ∷ [])

  abbrev pub guidance_of : Option (RamBenchResult F) → Printing
  guidance_of none = guidance_without
  guidance_of (some ram) =
      if float.le ram.read_saturation_gbs (float.of_ℕ 0)
      then guidance_without
      else guidance_measured ram

  unfoldable pub write_guidance : Report F → Printing
  write_guidance report = do
    say format
        (chars "\n=== Model selection guidance (" ∷ section ∷ chars "I.5 control layer) ===\n" ∷ [])
    guidance_of report.ram
