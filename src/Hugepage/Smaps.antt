-- ===== src/Hugepage/Smaps.antt =====
-- /proc/self/smaps, as the kernel prints it, and what `confirmed_hugepage_bytes` finds in it.
use llm_river.Base.Decimal.{show_ℕ, show_ℕ_lem, IsDigit}
use llm_river.Base.{
  ℕ, ◌+◌, ◌*◌, ◌^◌, ◌<◌, true, false, ◌&&◌, none, some, List, [], ◌∷◌, ◌++◌, ◌≡◌, ◌≢◌, refl, arith,
  ltb, leb, ◌==◌, if◌then◌else◌, Bytes, codes, All, All-append, length,
}
use llm_river.Hugepage.Vmas.{all_hex, parse_header}
use llm_river.Text.Hex.{show_hex8, show_hex8_lem, IsHexDigit, strtoull_hex-show_hex8}
use llm_river.Text.Lines.{IsLine}
use llm_river.Text.Search.{Lacks, find_char-append, find_char-none, take-length, drop_behind}
use llm_river.Text.{starts_with, is_space}

hex-Lacks_dash : (s : Bytes) → All IsHexDigit s → Lacks b'-' s
hex-Lacks_dash [] h = tt
hex-Lacks_dash (c ∷ s) ((_, _, _, no_dash, _, _, _), hs) = (no_dash, hex-Lacks_dash s hs)

hex-Lacks_space : (s : Bytes) → All IsHexDigit s → Lacks b' ' s
hex-Lacks_space [] h = tt
hex-Lacks_space (c ∷ s) ((_, _, no_space, _, _, _, _), hs) = (ground arith, hex-Lacks_space s hs)

all_hex-digits : (s : Bytes) → All IsHexDigit s → all_hex s ≡ true
all_hex-digits [] h = refl
all_hex-digits (c ∷ s) ((_, e, _, _, _, _, _), hs) = rw (all_hex, e) (all_hex-digits s hs)

length_pos : (s : Bytes) → s ≢ [] → (length s == 0) ≡ false
length_pos [] ne = absurd (ne refl)
length_pos (c ∷ s) ne = ground arith

-- The line that begins the part of smaps about one mapping: its addresses in hexadecimal, with zeros in
-- front up to eight digits, as in `00400000-00452000 r-xp …`, and more.
abbrev pub header_line : ℕ → ℕ → Bytes → Bytes
header_line start end rest = show_hex8 start ++ b'-' ∷ (show_hex8 end ++ b' ' ∷ rest)

-- The addresses of a header, which fit 64 bits, are read back, from lines with zeros in front as from
-- longer ones.
pub parse_header-header_line :
    (start end : ℕ) (rest : Bytes)
    → start < 2 ^ 64
    → end < 2 ^ 64
    → parse_header (header_line start end rest) ≡ some (record { start = start; end = end })
unfolding parse_header
parse_header-header_line start end rest hs he =
    let behind : Bytes = show_hex8 end ++ b' ' ∷ rest in
    let (ds, ne, _) = show_hex8_lem start in
    let (es, _, _) = show_hex8_lem end in
    rw
      (
        find_char-append b'-' (show_hex8 start) behind (hex-Lacks_dash (show_hex8 start) ds),
        parse_header,
      )
      (rw
        (
          length_pos (show_hex8 start) ne,
          take-length (show_hex8 start) (b'-' ∷ behind),
          drop_behind (show_hex8 start) b'-' behind,
          all_hex-digits (show_hex8 start) ds,
          find_char-append b' ' (show_hex8 end) rest (hex-Lacks_space (show_hex8 end) es),
          take-length (show_hex8 end) (b' ' ∷ rest),
          strtoull_hex-show_hex8 start hs,
          strtoull_hex-show_hex8 end he,
        )
        refl)

-- The part about one mapping: its header; the lines before and behind that of its huge pages; and the
-- spaces in front of their kilobytes.
pub record Mapping : Type 0 where
  pub start : ℕ
  pub end : ℕ
  pub rest : Bytes
  pub before : List Bytes
  pub spaces : Bytes
  pub kilobytes : ℕ
  pub behind : List Bytes

abbrev pub anon_line : Mapping → Bytes
anon_line m = codes "AnonHugePages:" ++ (m.spaces ++ (show_ℕ m.kilobytes ++ codes " kB"))

abbrev pub mapping_lines : Mapping → List Bytes
mapping_lines m = header_line m.start m.end m.rest ∷ (m.before ++ anon_line m ∷ m.behind)

abbrev pub smaps_of : List Mapping → List Bytes
smaps_of [] = []
smaps_of (m ∷ ms) = mapping_lines m ++ smaps_of ms

-- Another line of a mapping: no header, and not that of its huge pages.
pub record IsField (line : Bytes) : Type 0 where
  pub no_header : parse_header line ≡ none
  pub other : starts_with line (codes "AnonHugePages:") ≡ false
  pub one_line : IsLine line

pub record IsMapping (m : Mapping) : Type 0 where
  pub start_fits : m.start < 2 ^ 64
  pub end_fits : m.end < 2 ^ 64
  pub rest_line : IsLine m.rest
  pub before_fields : All IsField m.before
  pub are_spaces : All (λ c. (c == b' ') ≡ true) m.spaces
  pub kilobytes_fit : m.kilobytes < 2 ^ 64
  pub behind_fields : All IsField m.behind

-- The bytes in huge pages of the mappings that start in `[target_start, target_end)`.
abbrev pub hugepage_bytes : ℕ → ℕ → List Mapping → ℕ
hugepage_bytes target_start target_end [] = 0
hugepage_bytes target_start target_end (m ∷ ms) =
    (if leb target_start m.start && ltb m.start target_end then m.kilobytes * 1024 else 0)
    + hugepage_bytes target_start target_end ms

pub space-not_dash : (s : Bytes) → All (λ c. (c == b' ') ≡ true) s → Lacks b'-' s
space-not_dash [] h = tt
space-not_dash (c ∷ s) (h, hs) = (ground arith, space-not_dash s hs)

pub space-is_space : (s : Bytes) → All (λ c. (c == b' ') ≡ true) s → All (λ c. is_space c ≡ true) s
space-is_space [] h = tt
space-is_space (c ∷ s) (h, hs) = (ground arith, space-is_space s hs)

pub digit-not_dash : (s : Bytes) → All IsDigit s → Lacks b'-' s
digit-not_dash [] h = tt
digit-not_dash (c ∷ s) (h, hs) = (ground arith, digit-not_dash s hs)

pub anon_line-no_header : (m : Mapping) → IsMapping m → parse_header (anon_line m) ≡ none
unfolding parse_header
anon_line-no_header m ok =
    let (ds, _, _) = show_ℕ_lem m.kilobytes in
    let no_dash : Lacks b'-' (anon_line m) =
      All-append _ (codes "AnonHugePages:") _ (ground arith) (
        All-append _ m.spaces _ (space-not_dash m.spaces ok.are_spaces) (
          All-append _ (show_ℕ m.kilobytes) _ (digit-not_dash (show_ℕ m.kilobytes) ds)
            (ground arith))) in
    rw (find_char-none b'-' (anon_line m) no_dash) refl
