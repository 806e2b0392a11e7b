-- ===== src/Tests/Writing.antt =====
-- report.cpp and `JsonWriter` on a report with one optional part.
use llm_river.Base.Int.{pos}
use llm_river.Base.{ℕ, ◌≡◌, refl, none, some, [], ◌∷◌, ◌++◌, Bytes, codes}
use llm_river.Json.Parse.RoundTrip.{parse}
use llm_river.Json.{escape}
use llm_river.Report.Document.{report_json}
use llm_river.Report.Structs.{Report, new_cpu_info}
use llm_river.Report.Valid.{HasPlainStrings, parse-write_json}
use llm_river.Report.WriteJson.{write_json}
use llm_river.Report.WriteJsonLaws.{write_json-report_json}
use llm_river.Json.Document.{token, array, nil, cons, render}
use llm_river.Tests.Given.{thousandths, thousandths-ShowsNumbers}

escape_quote : escape (codes "a\"b\\") ≡ codes "a\\\"b\\\\"
unfolding escape
escape_quote = refl

-- A line break in a text goes out as it is, which no JSON string may hold.
escape_line_break : escape (b'\n' ∷ []) ≡ b'\n' ∷ []
unfolding escape
escape_line_break = refl

abbrev latency_only : Report ℕ
latency_only = record {
  cpu = record new_cpu_info { model_name = codes "a \"b\""; logical_cpus = pos 8 };
  ram = none;
  latency = some (record {
    footprint_bytes = 4096;
    dependent_chain_latency_ns = 92_000;
    mlp_scaling =
        record { streams = pos 1; bandwidth_gbs = 700 }
        ∷ record { streams = pos 2; bandwidth_gbs = 1_400 }
        ∷ [];
    mlp_plateau_streams = pos 2;
    mlp_plateau_bandwidth_gbs = 1_400;
    implied_outstanding_requests = 2_012;
  });
  disk = none;
  compute = none;
  hugepage = none;
}

latency_only-HasPlainStrings : HasPlainStrings latency_only
latency_only-HasPlainStrings = record { model_name = refl; disk_strings = tt; hugepage_note = tt }

-- A text with a line break in a string is no document, nor is one with a token that is no number.
no_line_break : parse (b'"' ∷ b'\n' ∷ b'"' ∷ []) ≡ none
unfolding parse
no_line_break = refl

no_leading_nought : parse (codes "[01]") ≡ none
unfolding parse
no_leading_nought = refl

some_numbers :
    parse (codes "[-0.5e+3,true]")
    ≡ some (array (cons (token (codes "-0.5e+3")) (cons (token (codes "true")) nil)), [])
unfolding parse
some_numbers = refl

parse-write_json_example :
    (written : Bytes) × (write_json thousandths [] (codes "2026-01-02T03:04:05Z") latency_only
      ≡ some ([] ++ written))
    × (parse written
        ≡ some (report_json thousandths (codes "2026-01-02T03:04:05Z") latency_only, b'\n' ∷ []))
parse-write_json_example =
    parse-write_json thousandths thousandths-ShowsNumbers [] (codes "2026-01-02T03:04:05Z")
      latency_only refl latency_only-HasPlainStrings

write_json-report_json_example :
    write_json thousandths (codes "> ") (codes "2026-01-02T03:04:05Z") latency_only
    ≡ some (
        codes "> "
        ++ render
            (report_json thousandths (codes "2026-01-02T03:04:05Z") latency_only)
            (b'\n' ∷ []))
write_json-report_json_example =
    write_json-report_json thousandths (codes "> ") (codes "2026-01-02T03:04:05Z") latency_only
