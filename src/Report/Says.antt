-- ===== src/Report/Says.antt =====
-- What it means to print lines, for the parts of tools/roofline/src/report.cpp that write for people.
use mathlib.Core.Path.{subst}
use llm_river.Base.{
  Bool, true, false, List, [], ◌∷◌, ◌++◌, ◌≡◌, refl, ap, ◌∙◌, sym, not, ◌&&◌, ◌==◌, arith,
  if◌then◌else◌, Bytes, codes, All, All-append, append_assoc, append-nil,
}
use llm_river.Report.Print.{
  Format, Item, chars, string, Printing, ◌>>◌, nothing, when, show_item, say,
}
use llm_river.Text.Lines.{IsLine}

-- No line break in the literals of some lines.
abbrev pub no_break : Bytes → Bool
no_break [] = true
no_break (c ∷ cs) = not (c == b'\n') && no_break cs

module _ {ℓ} {F : Type ℓ} where
  abbrev pub plain_line : List (Item F) → Bool
  plain_line [] = true
  plain_line (chars s ∷ items) = no_break (codes s) && plain_line items
  plain_line (_ ∷ items) = plain_line items

  abbrev pub plain : List (List (Item F)) → Bool
  plain [] = true
  plain (l ∷ ls) = plain_line l && plain ls

  -- The strings in some lines.
  abbrev pub line_strings : List (Item F) → List Bytes
  line_strings [] = []
  line_strings (string s ∷ items) = s ∷ line_strings items
  line_strings (_ ∷ items) = line_strings items

  abbrev pub strings : List (List (Item F)) → List Bytes
  strings [] = []
  strings (l ∷ ls) = line_strings l ++ strings ls

pub All-append_inv {ℓ κ} :
    {A : Type ℓ} (P : A → Type κ) (xs ys : List A) → All P (xs ++ ys) → All P xs × All P ys
All-append_inv P [] ys h = (tt, h)
All-append_inv P (x ∷ xs) ys (h, hs) = let (a, b) = All-append_inv P xs ys hs in ((h, a), b)

module _ {ℓ} {F : Type ℓ} (format : Format F) where
  -- Items as they are printed after `std::fixed`, in front of a text.
  abbrev pub shown : List (Item F) → Bytes → Bytes
  shown [] rest = rest
  shown (i ∷ items) rest = show_item format true i ++ shown items rest

  -- What a line says.
  abbrev pub line_text : List (Item F) → Bytes
  line_text l = shown l []

  -- Lines, each as its items, with a line break behind each.
  abbrev pub page : List (List (Item F)) → Bytes → Bytes
  page [] rest = rest
  page (l ∷ ls) rest = shown l (b'\n' ∷ page ls rest)

  page-append :
      (xs ys : List (List (Item F))) (rest : Bytes) → page (xs ++ ys) rest ≡ page xs (page ys rest)
  page-append [] ys rest = refl
  page-append (x ∷ xs) ys rest = ap (λ t. shown x (b'\n' ∷ t)) (page-append xs ys rest)

  pub shown-append :
      (items : List (Item F)) (a b : Bytes) → shown items (a ++ b) ≡ shown items a ++ b
  shown-append [] a b = refl
  shown-append (i ∷ items) a b =
      ap (λ t. show_item format true i ++ t) (shown-append items a b)
      ∙ sym (append_assoc (show_item format true i) (shown items a) b)

  page-split : (ls : List (List (Item F))) (rest : Bytes) → page ls rest ≡ page ls [] ++ rest
  page-split [] rest = refl
  page-split (l ∷ ls) rest =
      ap (λ t. shown l (b'\n' ∷ t)) (page-split ls rest) ∙ shown-append l (b'\n' ∷ page ls []) rest

  -- On a stream in fixed notation, `print` appends the lines and leaves the notation. The lines have no
  -- other line break.
  pub record Says (print : Printing) (ls : List (List (Item F))) : Type ℓ where
    pub says :
        (t : Bytes)
        → print (record { text = t; fixed = true })
          ≡ record { text = t ++ page ls []; fixed = true }
    pub is_plain : plain ls ≡ true
    pub string_lines : All IsLine (strings ls)

  plain-append :
      (xs ys : List (List (Item F))) → plain xs ≡ true → plain ys ≡ true → plain (xs ++ ys) ≡ true
  plain-append [] ys p q = q
  plain-append (x ∷ xs) ys p q = ground (arith, plain-append xs ys)

  strings-append :
      (xs ys : List (List (Item F)))
      → All IsLine (strings xs)
      → All IsLine (strings ys)
      → All IsLine (strings (xs ++ ys))
  strings-append xs ys p q =
      subst (All IsLine) (sym (split xs)) (All-append _ (strings xs) (strings ys) p q)
    where
      split : (xs : List (List (Item F))) → strings (xs ++ ys) ≡ strings xs ++ strings ys
      split [] = refl
      split (x ∷ xs) =
          ap (λ t. line_strings x ++ t) (split xs)
          ∙ sym (append_assoc (line_strings x) (strings xs) (strings ys))

  pub nothing-Says : Says nothing []
  unfolding nothing
  nothing-Says = record {
    says = λ t. ap (λ u. record { text = u; fixed = true }) (sym (append-nil t));
    is_plain = refl;
    string_lines = tt;
  }

  pub seq-Says :
      {a b : Printing} {xs ys : List (List (Item F))}
      → Says a xs
      → Says b ys
      → Says (a >> b) (xs ++ ys)
  unfolding ◌>>◌
  seq-Says {a} {b} {xs} {ys} p q = record {
    says = λ t.
        let joined : (t ++ page xs []) ++ page ys [] ≡ t ++ page (xs ++ ys) [] =
          append_assoc t (page xs []) (page ys [])
          ∙ ap (λ u. t ++ u) (sym (page-split xs (page ys [])) ∙ sym (page-append xs ys [])) in
        ap b (p.says t)
        ∙ q.says (t ++ page xs [])
        ∙ ap (λ u. record { text = u; fixed = true }) joined;
    is_plain = plain-append xs ys p.is_plain q.is_plain;
    string_lines = strings-append xs ys p.string_lines q.string_lines;
  }

  say-shown :
      (items : List (Item F)) (t : Bytes)
      → say format items (record { text = t; fixed = true })
        ≡ record { text = t ++ shown items []; fixed = true }
  unfolding say
  say-shown [] t = ap (λ u. record { text = u; fixed = true }) (sym (append-nil t))
  say-shown (i ∷ items) t =
      say-shown items (t ++ show_item format true i)
      ∙ ap (λ u. record { text = u; fixed = true })
          (append_assoc t (show_item format true i) (shown items []))

  -- A statement whose items end the last of their lines.
  pub say-Says :
      (items : List (Item F)) (ls : List (List (Item F)))
      → shown items [] ≡ page ls []
      → plain ls ≡ true
      → All IsLine (strings ls)
      → Says (say format items) ls
  say-Says items ls same p h = record {
    says = λ t. say-shown items t ∙ ap (λ u. record { text = t ++ u; fixed = true }) same;
    is_plain = p;
    string_lines = h;
  }

  pub when-Says :
      {a : Printing} {xs : List (List (Item F))} (b : Bool)
      → Says a xs
      → Says (when b a) (if b then xs else [])
  unfolding when
  when-Says true p = p
  when-Says false p = nothing-Says

  pub if-Says :
      {a b : Printing} {xs ys : List (List (Item F))} (c : Bool)
      → Says a xs
      → Says b ys
      → Says (if c then a else b) (if c then xs else ys)
  if-Says true p q = p
  if-Says false p q = q

  pub line :
      (items l : List (Item F))
      → shown items [] ≡ page (l ∷ []) []
      → plain (l ∷ []) ≡ true
      → All IsLine (strings (l ∷ []))
      → Says (say format items) (l ∷ [])
  line items l = say-Says items (l ∷ [])

  -- A heading has an empty line before it.
  pub heading :
      (items l : List (Item F))
      → shown items [] ≡ page ([] ∷ l ∷ []) []
      → plain ([] ∷ l ∷ []) ≡ true
      → All IsLine (strings ([] ∷ l ∷ []))
      → Says (say format items) ([] ∷ l ∷ [])
  heading items l = say-Says items ([] ∷ l ∷ [])
