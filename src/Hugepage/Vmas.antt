-- ===== src/Hugepage/Vmas.antt =====
-- The reader of /proc/self/smaps of tools/roofline/src/hugepage_bench.cpp.
use llm_river.Base.{
  ℕ, ◌+◌, ◌*◌, ◌%◌, ◌^◌, Bool, true, false, ◌&&◌, Option, none, some, List, [], ◌∷◌, ltb, leb, ◌==◌,
  if◌then◌else◌, Bytes, codes,
}
use llm_river.Text.{drop, take, starts_with, find_char, lines, extract_u64, hex_value, strtoull_hex}

pub record Vma : Type 0 where
  pub start : ℕ
  pub end : ℕ

abbrev pub all_hex : Bytes → Bool
all_hex [] = true
all_hex (c ∷ cs) = elim (hex_value c) [ none ↦ false | some d ↦ all_hex cs ]

-- `line.find(' ', dash)`, as a position in what stands behind the dash
abbrev pub header_end : Bytes → Bytes → Option ℕ → Option Vma
header_end front behind none = none
header_end front behind (some sp) =
    some (record { start = strtoull_hex front; end = strtoull_hex (take sp behind) })

abbrev pub header_at : Bytes → Option ℕ → Option Vma
header_at line none = none
header_at line (some dash) =
    let front = take dash line in
    let behind = drop (dash + 1) line in
    if dash == 0
    then none
    else if all_hex front
    then header_end front behind (find_char b' ' behind)
    else none

-- `none` is false.
unfoldable pub parse_header : Bytes → Option Vma
unfolding find_char strtoull_hex
parse_header line = header_at line (find_char b'-' line)

abbrev pub anon_hugepages : Bytes
anon_hugepages = codes "AnonHugePages:"

-- `in_range` and `sum_bytes`
pub record Tally : Type 0 where
  pub in_range : Bool
  pub sum_bytes : ℕ

-- The body of the loop over the lines.
unfoldable pub smaps_line : ℕ → ℕ → Bytes → Tally → Tally
unfolding parse_header starts_with extract_u64
smaps_line target_start target_end line s = elim (parse_header line) [
  | some v ↦ record s { in_range = leb target_start v.start && ltb v.start target_end }
  | none ↦
      if s.in_range && starts_with line anon_hugepages
      then record s {
        sum_bytes = (s.sum_bytes + extract_u64 (drop 14 line) * 1024 % 2 ^ 64) % 2 ^ 64;
      }
      else s
]

unfoldable pub smaps_lines : ℕ → ℕ → List Bytes → Tally → Tally
unfolding smaps_line
smaps_lines target_start target_end [] s = s
smaps_lines target_start target_end (line ∷ rest) s =
    smaps_lines target_start target_end rest (smaps_line target_start target_end line s)

-- `smaps` is the text of /proc/self/smaps, empty where it cannot be opened.
unfoldable pub confirmed_hugepage_bytes : Bytes → ℕ → ℕ → ℕ
unfolding lines smaps_lines
confirmed_hugepage_bytes smaps target_start target_end =
    (smaps_lines target_start target_end (lines smaps)
      (record { in_range = false; sum_bytes = 0 })).sum_bytes
