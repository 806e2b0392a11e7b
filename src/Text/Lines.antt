-- ===== src/Text/Lines.antt =====
-- A text is read line by line as the lines that it was written from.
use llm_river.Base.{
  false, List, [], ◌∷◌, ◌++◌, ◌≡◌, refl, ap, sym, ◌∙◌, ◌==◌, Bytes, All, append_assoc,
}
use llm_river.Text.{lines}

-- A text without a line break.
abbrev pub IsLine : Bytes → Type 0
IsLine = All (λ c. (c == b'\n') ≡ false)

-- Lines, each with its line break.
abbrev pub unlines : List Bytes → Bytes
unlines [] = []
unlines (l ∷ ls) = l ++ b'\n' ∷ unlines ls

lines-line : (l rest : Bytes) → IsLine l → lines (l ++ b'\n' ∷ rest) ≡ l ∷ lines rest
unfolding lines
lines-line [] rest h = refl
lines-line (c ∷ l) rest (h, hs) = rw (h, lines-line l rest hs) refl

pub lines-unlines : (ls : List Bytes) → All IsLine ls → lines (unlines ls) ≡ ls
lines-unlines [] h = unfold lines in refl
lines-unlines (l ∷ ls) (h, hs) = lines-line l (unlines ls) h ∙ ap (◌∷◌ l) (lines-unlines ls hs)

pub unlines-append : (xs ys : List Bytes) → unlines (xs ++ ys) ≡ unlines xs ++ unlines ys
unlines-append [] ys = refl
unlines-append (x ∷ xs) ys =
    ap (λ t. x ++ b'\n' ∷ t) (unlines-append xs ys)
    ∙ sym (append_assoc x (b'\n' ∷ unlines xs) (unlines ys))
