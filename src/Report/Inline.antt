-- ===== src/Report/Inline.antt =====
-- Printed lines are read back, for the parts of tools/roofline/src/report.cpp that write for people.
use mathlib.Core.List.{map}
use llm_river.Base.Decimal.{show_ℕ, show_ℤ, show_ℕ_lem, IsDigit}
use llm_river.Base.Int.{ℤ, pos, negsuc}
use llm_river.Base.{
  suc, true, false, List, [], ◌∷◌, ◌++◌, ◌≡◌, refl, ap, ◌∙◌, arith, Bytes, codes, All, All-append,
}
use llm_river.Report.Print.{Format, Item, chars, string, double, int, uint, bool, Printing, gbs}
use llm_river.Report.Says.{
  no_break, plain_line, plain, line_strings, strings, All-append_inv, shown, page, line_text,
  shown-append, Says,
}
use llm_river.Text.Lines.{IsLine, unlines, lines-unlines}
use llm_river.Text.{lines}

no_break-IsLine : (s : Bytes) → no_break s ≡ true → IsLine s
no_break-IsLine [] h = tt
no_break-IsLine (c ∷ s) h = (ground arith, no_break-IsLine s (ground arith))

digits-IsLine : (s : Bytes) → All IsDigit s → IsLine s
digits-IsLine [] h = tt
digits-IsLine (c ∷ s) ((lo, hi), hs) = (ground arith, digits-IsLine s hs)

show_ℤ-IsLine : (n : ℤ) → IsLine (show_ℤ n)
unfolding show_ℤ
show_ℤ-IsLine (pos n) = digits-IsLine (show_ℕ n) (show_ℕ_lem n).0
show_ℤ-IsLine (negsuc n) = (refl, digits-IsLine (show_ℕ (suc n)) (show_ℕ_lem (suc n)).0)

-- A double in fixed notation is printed without a line break.
pub record PrintsInline {ℓ} {F : Type ℓ} (format : Format F) : Type ℓ where
  pub inline : (v : F) → IsLine (format.show_fixed v)

module _ {ℓ} {F : Type ℓ} (format : Format F) (prints : PrintsInline format) where
  shown-IsLine :
      (l : List (Item F))
      → plain_line l ≡ true
      → All IsLine (line_strings l)
      → IsLine (shown format l [])
  shown-IsLine [] p h = tt
  shown-IsLine (chars s ∷ l) p h =
      All-append _ (codes s) _ (no_break-IsLine (codes s) (ground arith))
        (shown-IsLine l (ground arith) h)
  shown-IsLine (string s ∷ l) p (h, hs) = All-append _ s _ h (shown-IsLine l p hs)
  shown-IsLine (double v ∷ l) p h =
      All-append _ (format.show_fixed v) _ (prints.inline v) (shown-IsLine l p h)
  shown-IsLine (int n ∷ l) p h = All-append _ (show_ℤ n) _ (show_ℤ-IsLine n) (shown-IsLine l p h)
  shown-IsLine (uint n ∷ l) p h =
      All-append _ (show_ℕ n) _ (digits-IsLine (show_ℕ n) (show_ℕ_lem n).0) (shown-IsLine l p h)
  shown-IsLine (bool true ∷ l) p h = (refl, shown-IsLine l p h)
  shown-IsLine (bool false ∷ l) p h = (refl, shown-IsLine l p h)

  page-unlines :
      (ls : List (List (Item F))) → page format ls [] ≡ unlines (map (line_text format) ls)
  page-unlines [] = refl
  page-unlines (l ∷ ls) =
      shown-append format l [] (b'\n' ∷ page format ls [])
      ∙ ap (λ t. line_text format l ++ b'\n' ∷ t) (page-unlines ls)

  page-IsLine :
      (ls : List (List (Item F)))
      → plain ls ≡ true
      → All IsLine (strings ls)
      → All IsLine (map (line_text format) ls)
  page-IsLine [] p h = tt
  page-IsLine (l ∷ ls) p h =
      let (here, later) = All-append_inv IsLine (line_strings l) (strings ls) h in
      (shown-IsLine l (ground arith) here, page-IsLine ls (ground arith) later)

  -- What is printed is read line by line as the lines.
  pub lines-Says :
      {print : Printing} {ls : List (List (Item F))}
      → Says format print ls
      → lines (print (record { text = []; fixed = true })).text ≡ map (line_text format) ls
  lines-Says {print} {ls} p =
      ap (λ out. lines out.text) (p.says [])
      ∙ ap lines (page-unlines ls)
      ∙ lines-unlines (map (line_text format) ls) (page-IsLine ls p.is_plain p.string_lines)

  pub gbs-IsLine : (v : F) → IsLine (gbs format v)
  unfolding gbs
  gbs-IsLine v = All-append _ (format.show_fixed v) _ (prints.inline v) (ground arith)
