-- ===== src/Json/Number.antt =====
-- The numbers of JSON (RFC 8259, section 6), as a machine that reads a text character by character:
-- `-`, then `0` or digits that do not begin with `0`, then a fraction, then an exponent, where the sign, the
-- fraction and the exponent may be missing.
use llm_river.Base.Decimal.{show_ℕ, show_ℤ, show_ℕ_lem, show_ℕ_begins, IsDigit}
use llm_river.Base.Int.{ℤ, pos, negsuc}
use llm_river.Base.{
  ℕ, zero, suc, ◌<◌, Bool, true, false, ◌&&◌, ◌||◌, [], ◌∷◌, ◌≡◌, refl, ◌∙◌, sym, ap, arith, leb,
  ◌==◌, if◌then◌else◌, Bytes, All, Bool-cases, inl, inr,
}
use mathlib.Core.Path.{subst}

-- The characters of numbers and of `true`, `false` and `null`.
abbrev pub is_token_char : ℕ → Bool
is_token_char c =
    (leb b'0' c && leb c b'9')
    || (leb b'a' c && leb c b'z')
    || (leb b'A' c && leb c b'Z')
    || c == b'+'
    || c == b'-'
    || c == b'.'

-- What has been read of a number; `refused` is what is none.
pub data Scan : Type 0 where
  start : Scan
  minus : Scan
  nought : Scan
  whole : Scan
  point : Scan
  fraction : Scan
  power : Scan
  power_sign : Scan
  exponent : Scan
  refused : Scan

abbrev is_digit : ℕ → Bool
is_digit c = leb b'0' c && leb c b'9'

abbrev whole_begins : ℕ → Scan
whole_begins c = if c == b'0' then nought else if is_digit c then whole else refused

abbrev power_begins : ℕ → Scan
power_begins c = if c == b'e' || c == b'E' then power else refused

abbrev behind_whole : ℕ → Scan
behind_whole c = if c == b'.' then point else power_begins c

pub scan : Scan → ℕ → Scan
scan start c = if c == b'-' then minus else whole_begins c
scan minus c = whole_begins c
scan nought c = behind_whole c
scan whole c = if is_digit c then whole else behind_whole c
scan point c = if is_digit c then fraction else refused
scan fraction c = if is_digit c then fraction else power_begins c
scan power c =
    if c == b'+' || c == b'-' then power_sign else if is_digit c then exponent else refused
scan power_sign c = if is_digit c then exponent else refused
scan exponent c = if is_digit c then exponent else refused
scan refused c = refused

abbrev is_complete : Scan → Bool
is_complete start = false
is_complete minus = false
is_complete nought = true
is_complete whole = true
is_complete point = false
is_complete fraction = true
is_complete power = false
is_complete power_sign = false
is_complete exponent = true
is_complete refused = false

pub accepts : Scan → Bytes → Bool
unfolding scan
accepts p [] = is_complete p
accepts p (c ∷ cs) = accepts (scan p c) cs

unfoldable pub is_number : Bytes → Bool
unfolding accepts
is_number s = accepts start s

accepts-refused : (s : Bytes) → accepts refused s ≡ false
unfolding accepts
accepts-refused [] = refl
accepts-refused (c ∷ s) = accepts-refused s

scan-refused : (p : Scan) (c : ℕ) → is_token_char c ≡ false → scan p c ≡ refused
unfolding scan
scan-refused start c h = ground arith
scan-refused minus c h = ground arith
scan-refused nought c h = ground arith
scan-refused whole c h = ground arith
scan-refused point c h = ground arith
scan-refused fraction c h = ground arith
scan-refused power c h = ground arith
scan-refused power_sign c h = ground arith
scan-refused exponent c h = ground arith
scan-refused refused c h = refl

accepts-chars : (p : Scan) (s : Bytes) → accepts p s ≡ true → All (λ c. is_token_char c ≡ true) s
unfolding accepts
accepts-chars p [] h = tt
accepts-chars p (c ∷ s) h = elim (Bool-cases (is_token_char c)) [
  | inl e ↦ (e, accepts-chars (scan p c) s h)
  | inr e ↦
      let no : accepts (scan p c) s ≡ false =
        ap (λ q. accepts q s) (scan-refused p c e) ∙ accepts-refused s in
      let clash : true ≡ false = sym h ∙ no in cc clash
]

-- A number has only characters of a token.
pub number-chars : (s : Bytes) → is_number s ≡ true → All (λ c. is_token_char c ≡ true) s
unfolding is_number
number-chars s h = accepts-chars start s h

accepts-digits : (s : Bytes) → All IsDigit s → accepts whole s ≡ true
unfolding accepts
accepts-digits [] h = refl
accepts-digits (c ∷ s) ((lo, hi), hs) =
    let stays : scan whole c ≡ whole = unfold scan in ground arith in
    ap (λ p. accepts p s) stays ∙ accepts-digits s hs

-- A text of digits that begins with a digit other than `0` is accepted behind the sign, and without one.
accepts-begun :
    (s : Bytes) (c : ℕ) (cs : Bytes)
    → s ≡ c ∷ cs
    → b'0' < c
    → All IsDigit s
    → (accepts minus s ≡ true) × (accepts start s ≡ true)
unfolding accepts
accepts-begun s c cs e nonzero h =
    let ((lo, hi), hs) = subst (All IsDigit) e h in
    let after_minus : scan minus c ≡ whole = unfold scan in ground arith in
    let after_start : scan start c ≡ whole = unfold scan in ground arith in
    (
      ap (accepts minus) e ∙ ap (λ p. accepts p cs) after_minus ∙ accepts-digits cs hs,
      ap (accepts start) e ∙ ap (λ p. accepts p cs) after_start ∙ accepts-digits cs hs,
    )

pub is_number-show_ℕ : (n : ℕ) → is_number (show_ℕ n) ≡ true
unfolding is_number
is_number-show_ℕ zero = unfold show_ℕ in refl
is_number-show_ℕ (suc n) =
    let (c, cs, e, nonzero) = show_ℕ_begins n in
    (accepts-begun (show_ℕ (suc n)) c cs e nonzero (show_ℕ_lem (suc n)).0).1

pub is_number-show_ℤ : (v : ℤ) → is_number (show_ℤ v) ≡ true
unfolding show_ℤ
is_number-show_ℤ (pos n) = is_number-show_ℕ n
is_number-show_ℤ (negsuc n) =
    let (c, cs, e, nonzero) = show_ℕ_begins n in
    unfold is_number in (accepts-begun (show_ℕ (suc n)) c cs e nonzero (show_ℕ_lem (suc n)).0).0
