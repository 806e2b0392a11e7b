-- ===== src/Main/Done.antt =====
-- What `main` of tools/roofline/src/main.cpp prints and saves.
use mathlib.Core.List.{map}
use llm_river.Base.Int.{pos}
use llm_river.Base.Run.{done}
use llm_river.Base.{
  Bool, true, false, Option, none, some, List, [], ◌∷◌, ◌++◌, ◌≡◌, refl, Bytes, codes, Bool-cases,
  inl, inr,
}
use llm_river.Json.Parse.RoundTrip.{parse}
use llm_river.Main.Arguments.{Benches, Host}
use llm_river.Main.Asked.{IsCommand, is_command-IsCommand}
use llm_river.Main.{Outcome, new_stream, save_report, show_report, run_command, main}
use llm_river.Options.{Options, get, has, parse_options}
use llm_river.Report.Document.{report_json}
use llm_river.Report.Guidance.{guidance_lines, lines-write_guidance}
use llm_river.Report.HumanLines.{human_lines}
use llm_river.Report.Inline.{PrintsInline}
use llm_river.Report.Print.{Format}
use llm_river.Report.Says.{line_text}
use llm_river.Report.Structs.{Report}
use llm_river.Report.Valid.{ShowsNumbers, HasPlainStrings, parse-write_json}
use llm_river.Report.WriteGuidance.{write_guidance}
use llm_river.Report.WriteHuman.{write_human}
use llm_river.Text.{lines}
use llm_river.Main.Collected.{IsRequested, Returns, collect-IsRequested}
use llm_river.Main.Plain.{HasPlainDates, plain-IsPrintable}

module _ {ℓ} {F : Type ℓ} (format : Format F) (benches : Benches F) (host : Host)
    (options : Options) where
  -- What is printed to `stdout`: with `--json` a text that a strict JSON reader reads as the document of the
  -- report, and the lines for people without it.
  abbrev pub Shows : Bool → Bytes → Report F → Type 0
  Shows true stdout r =
      parse stdout ≡ some (report_json format.float host.stdout_date r, b'\n' ∷ [])
  Shows false stdout r =
      lines stdout ≡ map (line_text format) (human_lines format r ++ guidance_lines format r)

  -- What is saved: with `--out` the document of the report under that path, and nothing without it.
  abbrev pub Saves : Bool → Option (Bytes × Bytes) → Report F → Type 0
  Saves true file r =
      (text : Bytes) × (file ≡ some (get options (codes "out") [], text))
      × (parse text ≡ some (report_json format.float host.file_date r, b'\n' ∷ []))
  Saves false file r = file ≡ none

  module _ (shows : ShowsNumbers format.float) (prints : PrintsInline format)
      (dates : HasPlainDates host) where
    save_report-Saves :
        (r : Report F)
        → HasPlainStrings r
        → (file : Option (Bytes × Bytes)) × (save_report format benches host options r ≡ done file)
          × Saves (has options (codes "out")) file r
    unfolding save_report
    save_report-Saves r ok = elim (Bool-cases (has options (codes "out"))) [
      | inr e ↦ (none, rw e refl, rw e refl)
      | inl e ↦
          let (text, written, read) =
            parse-write_json format.float shows [] host.file_date r dates.file_date ok in
          (some (get options (codes "out") [], text), rw (e, written) refl, rw e (text, refl, read))
    ]

    show_report-Shows :
        (r : Report F)
        → HasPlainStrings r
        → (stdout : Bytes) × (show_report format benches host options r ≡ done stdout)
          × Shows (has options (codes "json")) stdout r
    unfolding show_report
    show_report-Shows r ok = elim (Bool-cases (has options (codes "json"))) [
      | inr e ↦ (
        (write_guidance format r (write_human format r new_stream)).text,
        rw e refl,
        rw e (lines-write_guidance format r false prints (plain-IsPrintable r ok)),
      )
      | inl e ↦
          let (text, written, read) =
            parse-write_json format.float shows [] host.stdout_date r dates.stdout_date ok in
          (text, rw (e, written) refl, rw e read)
    ]

    run_command_done :
        (cmd : Bytes)
        → Returns benches host options cmd
        → ((r : Report F) → IsRequested benches host options cmd r → HasPlainStrings r)
        → (r : Report F) × (o : Outcome) × (run_command format benches host options cmd ≡ done o)
          × IsRequested benches host options cmd r
          × (o.exit_code ≡ pos 0)
          × Shows (has options (codes "json")) o.stdout r
          × Saves (has options (codes "out")) o.file r
    unfolding run_command
    run_command_done cmd returns plain =
        let (r, err, ran, requested) =
          collect-IsRequested format benches host options cmd new_stream returns in
        let (file, saved, saves) = save_report-Saves r (plain r requested) in
        let (stdout, showed, shown) = show_report-Shows r (plain r requested) in
        (
          r,
          record { exit_code = pos 0; stdout = stdout; stderr = err.text; file = file },
          rw (ran, saved, showed, run_command) refl,
          requested,
          refl,
          shown,
          saves,
        )

-- On one of the six commands, if each bench that it asks for returns, `main` ends with exit code 0. `all`
-- asks for the five benches, and each other command for the bench of its name; the report has the results of
-- those and of no other. `stdout` has it as a JSON document with `--json`, and line by line for people with the
-- guidance without it; with `--out` its JSON document is saved under that path, and nothing is saved without
-- it. The print of a finite double must be a number of JSON by default and have no line break in fixed
-- notation, and the dates and the strings of such a report must have no control character.
pub main_done {ℓ} :
    {F : Type ℓ} (format : Format F) (benches : Benches F) (host : Host) (prog cmd : Bytes)
    (args : List Bytes)
    → ShowsNumbers format.float
    → PrintsInline format
    → HasPlainDates host
    → IsCommand cmd
    → Returns benches host (parse_options args) cmd
    → ((r : Report F) → IsRequested benches host (parse_options args) cmd r → HasPlainStrings r)
    → (r : Report F) × (o : Outcome) × (main format benches host prog (cmd ∷ args) ≡ done o)
      × IsRequested benches host (parse_options args) cmd r
      × (o.exit_code ≡ pos 0)
      × Shows format benches host
          (parse_options args)
          (has (parse_options args) (codes "json"))
          o.stdout
          r
      × Saves format benches host
          (parse_options args)
          (has (parse_options args) (codes "out"))
          o.file
          r
unfolding main
main_done format benches host prog cmd args shows prints dates known returns plain =
    let options = parse_options args in
    let (r, o, ran, requested, code, shown, saved) =
      run_command_done format benches host options shows prints dates cmd returns plain in
    (r, o, rw (is_command-IsCommand cmd known, ran) refl, requested, code, shown, saved)
