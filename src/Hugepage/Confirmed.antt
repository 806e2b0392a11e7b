-- ===== src/Hugepage/Confirmed.antt =====
-- `confirmed_hugepage_bytes` of tools/roofline/src/hugepage_bench.cpp on what the kernel prints.
use llm_river.Base.Decimal.{show_ℕ, show_ℕ_lem, IsDigit}
use llm_river.Base.{
  ℕ, ◌+◌, ◌*◌, ◌^◌, ◌%◌, ◌<◌, Bool, true, false, ◌&&◌, List, [], ◌∷◌, ◌++◌, ◌≡◌, refl, ap, ◌∙◌,
  arith, ltb, leb, ◌==◌, if◌then◌else◌, Bytes, codes, All, All-append,
}
use llm_river.Hugepage.Smaps.{
  header_line, parse_header-header_line, Mapping, anon_line, mapping_lines, smaps_of, IsField,
  IsMapping, hugepage_bytes, anon_line-no_header, space-is_space,
}
use llm_river.Hugepage.Vmas.{
  anon_hugepages, Tally, smaps_line, smaps_lines, confirmed_hugepage_bytes,
}
use llm_river.Text.Hex.{show_hex8, show_hex8_lem, IsHexDigit}
use llm_river.Text.Lines.{IsLine, unlines, lines-unlines}
use llm_river.Text.Numbers.{extract_u64-show_ℕ}
use llm_river.Text.Search.{starts_with-append}
use llm_river.Text.{drop, extract_u64}

module _ (target_start target_end : ℕ) where
  smaps_line-field :
      (l : Bytes) (s : Tally) → IsField l → smaps_line target_start target_end l s ≡ s
  unfolding smaps_line
  smaps_line-field l s h = rw (smaps_line, h.no_header, h.other) (unmoved s.in_range)
    where
      unmoved :
          (b : Bool)
          → (if b && false
              then record s {
                sum_bytes = (s.sum_bytes + extract_u64 (drop 14 l) * 1024 % 2 ^ 64) % 2 ^ 64;
              }
              else s)
            ≡ s
      unmoved true = refl
      unmoved false = refl

  fields_lem :
      (ls : List Bytes) (s : Tally) → All IsField ls → smaps_lines target_start target_end ls s ≡ s
  unfolding smaps_lines
  fields_lem [] s h = refl
  fields_lem (l ∷ ls) s (h, hs) =
      ap (smaps_lines target_start target_end ls) (smaps_line-field l s h) ∙ fields_lem ls s hs

  smaps_lines-append :
      (xs ys : List Bytes) (s : Tally)
      → smaps_lines target_start target_end (xs ++ ys) s
        ≡ smaps_lines target_start target_end ys (smaps_lines target_start target_end xs s)
  unfolding smaps_lines
  smaps_lines-append [] ys s = refl
  smaps_lines-append (x ∷ xs) ys s =
      smaps_lines-append xs ys (smaps_line target_start target_end x s)

  abbrev starts_inside : Mapping → Bool
  starts_inside m = leb target_start m.start && ltb m.start target_end

  -- What a mapping's huge pages add.
  abbrev tallied : Mapping → ℕ → Tally
  tallied m sum = record {
    in_range = starts_inside m;
    sum_bytes = if starts_inside m then (sum + m.kilobytes * 1024 % 2 ^ 64) % 2 ^ 64 else sum;
  }

  smaps_line-anon_line :
      (m : Mapping) (sum : ℕ)
      → IsMapping m
      → smaps_line target_start target_end
          (anon_line m)
          (record { in_range = starts_inside m; sum_bytes = sum })
        ≡ tallied m sum
  unfolding smaps_line
  smaps_line-anon_line m sum ok =
      let read : extract_u64 (m.spaces ++ (show_ℕ m.kilobytes ++ codes " kB")) ≡ m.kilobytes =
        extract_u64-show_ℕ m.spaces m.kilobytes (codes " kB")
          (space-is_space m.spaces ok.are_spaces) refl ok.kilobytes_fit in
      rw
        (
          anon_line-no_header m ok,
          starts_with-append anon_hugepages (m.spaces ++ (show_ℕ m.kilobytes ++ codes " kB")),
          smaps_line,
        )
        (rw read (tally (starts_inside m)))
    where
      tally :
          (b : Bool)
          → ◌≡◌ {A = Tally}
              (if b && true
                then record {
                  in_range = b;
                  sum_bytes = (sum + m.kilobytes * 1024 % 2 ^ 64) % 2 ^ 64;
                }
                else record { in_range = b; sum_bytes = sum })
              (record {
                in_range = b;
                sum_bytes = if b then (sum + m.kilobytes * 1024 % 2 ^ 64) % 2 ^ 64 else sum;
              })
      tally true = refl
      tally false = refl

  smaps_lines-cons :
      (l : Bytes) (ls : List Bytes) (s : Tally)
      → smaps_lines target_start target_end (l ∷ ls) s
        ≡ smaps_lines target_start target_end ls (smaps_line target_start target_end l s)
  unfolding smaps_lines
  smaps_lines-cons l ls s = refl

  smaps_line-header_line :
      (m : Mapping) (s : Tally)
      → IsMapping m
      → smaps_line target_start target_end (header_line m.start m.end m.rest) s
        ≡ record { in_range = starts_inside m; sum_bytes = s.sum_bytes }
  unfolding smaps_line
  smaps_line-header_line m s ok =
      rw (parse_header-header_line m.start m.end m.rest ok.start_fits ok.end_fits, smaps_line) refl

  mapping_lem :
      (m : Mapping) (s : Tally)
      → IsMapping m
      → smaps_lines target_start target_end (mapping_lines m) s ≡ tallied m s.sum_bytes
  mapping_lem m s ok =
      let inside : Tally = record { in_range = starts_inside m; sum_bytes = s.sum_bytes } in
      smaps_lines-cons (header_line m.start m.end m.rest) (m.before ++ anon_line m ∷ m.behind) s
      ∙ ap (smaps_lines target_start target_end (m.before ++ anon_line m ∷ m.behind))
          (smaps_line-header_line m s ok)
      ∙ smaps_lines-append m.before (anon_line m ∷ m.behind) inside
      ∙ ap (smaps_lines target_start target_end (anon_line m ∷ m.behind))
          (fields_lem m.before inside ok.before_fields)
      ∙ smaps_lines-cons (anon_line m) m.behind inside
      ∙ ap (smaps_lines target_start target_end m.behind) (smaps_line-anon_line m s.sum_bytes ok)
      ∙ fields_lem m.behind (tallied m s.sum_bytes) ok.behind_fields

  smaps_lem :
      (ms : List Mapping) (s : Tally)
      → All IsMapping ms
      → s.sum_bytes < 2 ^ 64
      → (smaps_lines target_start target_end (smaps_of ms) s).sum_bytes
        ≡ (s.sum_bytes + hugepage_bytes target_start target_end ms) % 2 ^ 64
  smaps_lem [] s h fits = unfold smaps_lines in omega arith
  smaps_lem (m ∷ ms) s (h, hs) fits =
      ap (λ t. t.sum_bytes)
        (smaps_lines-append (mapping_lines m) (smaps_of ms) s
          ∙ ap (smaps_lines target_start target_end (smaps_of ms)) (mapping_lem m s h))
      ∙ smaps_lem ms (tallied m s.sum_bytes) hs (ground arith)
      ∙ ground arith

hex-IsLine : (s : Bytes) → All IsHexDigit s → IsLine s
hex-IsLine [] h = tt
hex-IsLine (c ∷ s) ((_, _, no_space, _, _, _, _), hs) = (ground arith, hex-IsLine s hs)

spaces-IsLine : (s : Bytes) → All (λ c. (c == b' ') ≡ true) s → IsLine s
spaces-IsLine [] h = tt
spaces-IsLine (c ∷ s) (h, hs) = (ground arith, spaces-IsLine s hs)

digits-IsLine : (s : Bytes) → All IsDigit s → IsLine s
digits-IsLine [] h = tt
digits-IsLine (c ∷ s) ((lo, hi), hs) = (ground arith, digits-IsLine s hs)

fields-IsLine : (ls : List Bytes) → All IsField ls → All IsLine ls
fields-IsLine [] h = tt
fields-IsLine (l ∷ ls) (h, hs) = (h.one_line, fields-IsLine ls hs)

mapping-IsLine : (m : Mapping) → IsMapping m → All IsLine (mapping_lines m)
mapping-IsLine m ok =
    let (ss, _, _) = show_hex8_lem m.start in
    let (es, _, _) = show_hex8_lem m.end in
    let (ks, _, _) = show_ℕ_lem m.kilobytes in
    (
      All-append _ (show_hex8 m.start) _ (hex-IsLine (show_hex8 m.start) ss) (
        refl,
        All-append _ (show_hex8 m.end) _ (hex-IsLine (show_hex8 m.end) es) (refl, ok.rest_line),
      ),
      All-append _ m.before _ (fields-IsLine m.before ok.before_fields) (
        All-append _ (codes "AnonHugePages:") _ (ground arith) (
            All-append _ m.spaces _ (spaces-IsLine m.spaces ok.are_spaces) (
              All-append _ (show_ℕ m.kilobytes) _ (digits-IsLine (show_ℕ m.kilobytes) ks)
                (ground arith))),
        fields-IsLine m.behind ok.behind_fields,
      ),
    )

smaps-IsLine : (ms : List Mapping) → All IsMapping ms → All IsLine (smaps_of ms)
smaps-IsLine [] h = tt
smaps-IsLine (m ∷ ms) (h, hs) =
    All-append _ (mapping_lines m) _ (mapping-IsLine m h) (smaps-IsLine ms hs)

-- On the text that the kernel prints about mappings whose addresses and kilobytes fit 64 bits, the
-- addresses with zeros in front up to eight digits,
-- `confirmed_hugepage_bytes` is the bytes in huge pages of the mappings that start inside the range, modulo
-- 2 ^ 64.
pub confirmed_hugepage_bytes-smaps_of :
    (ms : List Mapping) (target_start target_end : ℕ)
    → All IsMapping ms
    → confirmed_hugepage_bytes (unlines (smaps_of ms)) target_start target_end
      ≡ hugepage_bytes target_start target_end ms % 2 ^ 64
unfolding confirmed_hugepage_bytes
confirmed_hugepage_bytes-smaps_of ms target_start target_end h =
    ap
      (λ ls.
        (smaps_lines target_start target_end ls
          (record { in_range = false; sum_bytes = 0 })).sum_bytes)
      (lines-unlines (smaps_of ms) (smaps-IsLine ms h))
    ∙ smaps_lem target_start target_end ms (record { in_range = false; sum_bytes = 0 }) h
        (omega arith)
    ∙ omega arith
