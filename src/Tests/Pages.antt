-- ===== src/Tests/Pages.antt =====
-- hugepage_bench.cpp on a small text of /proc/self/smaps and a mapping of two pages.
use llm_river.Base.Int.{pos}
use llm_river.Base.Run.{done}
use llm_river.Base.{◌≡◌, refl, some, none, List, [], ◌∷◌, arith, codes}
use llm_river.Clock.{repeat, sub_u64}
use llm_river.Hugepage.Expected.{TimesUp, expected}
use llm_river.Hugepage.Bench.{run_hugepage_bench_done}
use llm_river.Hugepage.Mapped.{left_mapped}
use llm_river.Hugepage.Confirmed.{confirmed_hugepage_bytes-smaps_of}
use llm_river.Hugepage.Sequential.{measure_sequential_bandwidth_lem, streamed_rate}
use llm_river.Hugepage.Smaps.{
  header_line, parse_header-header_line, Mapping, smaps_of, IsField, IsMapping,
}
use llm_river.Hugepage.Vmas.{parse_header, confirmed_hugepage_bytes}
use llm_river.Hugepage.{
  MapCall, mmap, Outside, stream_pass, measure_sequential_bandwidth, run_hugepage_bench,
}
use llm_river.Text.Lines.{unlines}
use llm_river.Text.{starts_with, find_char}
use llm_river.Tests.Given.{counting, counting-IsUniform, thousandths, ticking, ticking-TimeIsUp}

parse_header-header_line_example :
    parse_header (header_line 0x7f00 0x7f80 (codes "rw-p 0 00:00 0"))
    ≡ some (record { start = 0x7f00; end = 0x7f80 })
parse_header-header_line_example =
    parse_header-header_line 0x7f00 0x7f80 (codes "rw-p 0 00:00 0") (omega arith) (omega arith)

abbrev heap : Mapping
heap = record {
  start = 0x7f00;
  end = 0x7f80;
  rest = codes "rw-p";
  before = codes "Rss: 4 kB" ∷ [];
  spaces = codes "   ";
  kilobytes = 2048;
  behind = [];
}

heap-IsMapping : IsMapping heap
heap-IsMapping = record {
  start_fits = omega arith;
  end_fits = omega arith;
  rest_line = ground arith;
  before_fields = (rss-IsField, tt);
  are_spaces = ground arith;
  kilobytes_fit = omega arith;
  behind_fields = tt;
}
  where
    rss-IsField : IsField (codes "Rss: 4 kB")
    rss-IsField = record {
      no_header = unfold parse_header find_char in refl;
      other = unfold starts_with in refl;
      one_line = ground arith;
    }

confirmed_hugepage_bytes-smaps_of_example :
    confirmed_hugepage_bytes (unlines (smaps_of (heap ∷ []))) 0x7f00 0x8000 ≡ 2_097_152
confirmed_hugepage_bytes-smaps_of_example =
    confirmed_hugepage_bytes-smaps_of (heap ∷ []) 0x7f00 0x8000 (heap-IsMapping, tt)

measure_sequential_bandwidth_lem_example :
    (measure_sequential_bandwidth thousandths 4 ticking (7 ∷ 5 ∷ []) 128 (pos 1)
      ≡ some (streamed_rate thousandths 256 (sub_u64 (ticking 3) (ticking 0))))
    × ((repeat 2 (stream_pass (7 ∷ 5 ∷ []) 128) (record { acc = 0; bytes = 0 })).acc ≡ 24)
measure_sequential_bandwidth_lem_example =
    measure_sequential_bandwidth_lem thousandths 4 ticking (pos 1) 1 ticking-TimeIsUp (omega arith)
      (7 ∷ 5 ∷ [])

-- The second mapping cannot be had.
abbrev pub pages : Outside
pages = record {
  base_mem = some 0x7f00;
  huge_mem = none;
  base_latency_clock = ticking;
  huge_latency_clock = ticking;
  base_seq_clock = ticking;
  huge_seq_clock = ticking;
  smaps = [];
}

abbrev pub both_pages : Outside
both_pages = record pages { huge_mem = some 0x9f00 }

pub both_pages-TimesUp : TimesUp both_pages (pos 1) 4
both_pages-TimesUp = record {
  base_hops = 1;
  huge_hops = 1;
  base_passes = 1;
  huge_passes = 1;
  base_latency_up = ticking-TimeIsUp;
  huge_latency_up = ticking-TimeIsUp;
  base_seq_up = ticking-TimeIsUp;
  huge_seq_up = ticking-TimeIsUp;
  base_hops_lt = omega arith;
  huge_hops_lt = omega arith;
  base_passes_lt = omega arith;
  huge_passes_lt = omega arith;
}

run_hugepage_bench_done_example :
    (unmaps : List MapCall) × (run_hugepage_bench thousandths counting 4 both_pages 3_000_000
        (pos 1)
      ≡ done (
        expected thousandths
            (some 0x7f00)
            (some 0x9f00)
            both_pages
            4_194_304
            (pos 1)
            4
            both_pages-TimesUp,
        mmap 4_194_304 (some 0x7f00) ∷ mmap 4_194_304 (some 0x9f00) ∷ unmaps,
      ))
    × (left_mapped (mmap 4_194_304 (some 0x7f00) ∷ mmap 4_194_304 (some 0x9f00) ∷ unmaps) [] ≡ [])
run_hugepage_bench_done_example =
    run_hugepage_bench_done thousandths counting counting-IsUniform 4 both_pages 3_000_000 (pos 1)
      both_pages-TimesUp (omega arith) (omega arith)
