-- ===== src/Cpu/Sizes.antt =====
-- The cache sizes that sysfs prints: a decimal number, a suffix and a line break.
use llm_river.Base.Decimal.{show_ℕ, show_ℕ_lem, IsDigit}
use llm_river.Base.{
  ℕ, ◌*◌, ◌^◌, ◌%◌, ◌<◌, false, none, some, [], ◌∷◌, ◌++◌, ◌≡◌, ◌≢◌, refl, ap, ◌∙◌, sym, arith,
  Bytes, All, append-nil, ◌⊎◌, inl, inr,
}
use llm_river.Cpu.Trim.{AreBlank, IsTight, trim_lem}
use llm_river.Cpu.{is_blank, without_last, multiplier, parse_cache_size}
use llm_river.Plateau.{back}
use llm_river.Text.Numbers.{stoull-show_ℕ}
use llm_river.Text.{stoull}

-- What a text of digits begins and ends with.
record Ends (ds : Bytes) : Type 0 where
  first : ℕ
  behind : Bytes
  begins : ds ≡ first ∷ behind
  first_digit : IsDigit first
  front : Bytes
  last : ℕ
  ends : ds ≡ front ++ last ∷ []
  last_digit : IsDigit last

last_of :
    (c : ℕ) (cs : Bytes)
    → All IsDigit (c ∷ cs)
    → (front : Bytes) × (last : ℕ) × (c ∷ cs ≡ front ++ last ∷ []) × IsDigit last
last_of c [] (h, hs) = ([], c, refl, h)
last_of c (d ∷ cs) (h, hs) =
    let (front, last, e, digit) = last_of d cs hs in (c ∷ front, last, ap (◌∷◌ c) e, digit)

digits-Ends : (ds : Bytes) → ds ≢ [] → All IsDigit ds → Ends ds
digits-Ends [] ne h = absurd (ne refl)
digits-Ends (d ∷ ds) ne (h, hs) =
    let (front, last, e, digit) = last_of d ds (h, hs) in
    record {
      first = d;
      behind = ds;
      begins = refl;
      first_digit = h;
      front = front;
      last = last;
      ends = e;
      last_digit = digit;
    }

show_ℕ-Ends : (n : ℕ) → Ends (show_ℕ n)
show_ℕ-Ends n = let (ds, ne, _) = show_ℕ_lem n in digits-Ends (show_ℕ n) ne ds

digit_shows : (c : ℕ) → IsDigit c → is_blank c ≡ false
digit_shows c h = ground arith

digit_no_suffix : (c : ℕ) → IsDigit c → multiplier c ≡ none
digit_no_suffix c h = ground arith

-- The suffixes of a size and the number of bytes that each stands for.
abbrev pub IsSuffix : ℕ → ℕ → Type 0
IsSuffix c mult =
    (((c ≡ b'K') ⊎ (c ≡ b'k')) × (mult ≡ 1024)) ⊎ (((c ≡ b'M') ⊎ (c ≡ b'm')) × (mult ≡ 1024 * 1024))

multiplier-IsSuffix : (c mult : ℕ) → IsSuffix c mult → multiplier c ≡ some mult
multiplier-IsSuffix c mult (inl (inl e, m)) = rw (e, m) refl
multiplier-IsSuffix c mult (inl (inr e, m)) = rw (e, m) refl
multiplier-IsSuffix c mult (inr (inl e, m)) = rw (e, m) refl
multiplier-IsSuffix c mult (inr (inr e, m)) = rw (e, m) refl

suffix_shows : (c mult : ℕ) → multiplier c ≡ some mult → is_blank c ≡ false
suffix_shows c mult h = ground arith

show_ℕ-IsTight : (n : ℕ) → IsTight (show_ℕ n)
show_ℕ-IsTight n =
    let e = show_ℕ-Ends n in
    record {
      first = e.first;
      behind = e.behind;
      begins = e.begins;
      first_shows = digit_shows e.first e.first_digit;
      front = e.front;
      last = e.last;
      ends = e.ends;
      last_shows = digit_shows e.last e.last_digit;
    }

suffixed-IsTight : (n c mult : ℕ) → multiplier c ≡ some mult → IsTight (show_ℕ n ++ c ∷ [])
suffixed-IsTight n c mult h =
    let e = show_ℕ-Ends n in
    record {
      first = e.first;
      behind = e.behind ++ c ∷ [];
      begins = ap (λ s. s ++ c ∷ []) e.begins;
      first_shows = digit_shows e.first e.first_digit;
      front = show_ℕ n;
      last = c;
      ends = refl;
      last_shows = suffix_shows c mult h;
    }

back-append : (s : Bytes) (c : ℕ) → back (s ++ c ∷ []) ≡ some c
unfolding back
back-append [] c = refl
back-append (d ∷ []) c = refl
back-append (d ∷ e ∷ s) c = back-append (e ∷ s) c

without_last-append : (s : Bytes) (c : ℕ) → without_last (s ++ c ∷ []) ≡ s
without_last-append [] c = refl
without_last-append (d ∷ []) c = refl
without_last-append (d ∷ e ∷ s) c = ap (◌∷◌ d) (without_last-append (e ∷ s) c)

-- Between blanks, a decimal number below 2^64 followed by a suffix is that many times 1024 bytes if the
-- suffix is K or k, and 1024 * 1024 bytes if it is M or m, in `uint64_t`; a bare number is itself; and
-- blanks alone are 0.
pub parse_cache_size-show_ℕ :
    (a b : Bytes) (n c mult : ℕ)
    → AreBlank a
    → AreBlank b
    → n < 2 ^ 64
    → IsSuffix c mult
    → (parse_cache_size (a ++ (show_ℕ n ++ c ∷ [] ++ b)) ≡ n * mult % 2 ^ 64)
      × (parse_cache_size (a ++ (show_ℕ n ++ b)) ≡ n)
      × (parse_cache_size a ≡ 0)
unfolding parse_cache_size
parse_cache_size-show_ℕ a b n c mult ha hb fits kind =
    let suffix : multiplier c ≡ some mult = multiplier-IsSuffix c mult kind in
    let number : stoull (show_ℕ n) ≡ some n =
      ap stoull (sym (append-nil (show_ℕ n))) ∙ stoull-show_ℕ n [] tt fits in
    let (trimmed, nothing) =
      trim_lem a (show_ℕ n ++ c ∷ []) b ha hb (suffixed-IsTight n c mult suffix) in
    let (bare, _) = trim_lem a (show_ℕ n) b ha hb (show_ℕ-IsTight n) in
    let e = show_ℕ-Ends n in
    let last : back (show_ℕ n) ≡ some e.last = ap back e.ends ∙ back-append e.front e.last in
    let itself : n * 1 % 2 ^ 64 ≡ n = omega arith in
    (
      rw (trimmed, back-append (show_ℕ n) c, suffix, without_last-append (show_ℕ n) c, number) refl,
      rw (bare, last, digit_no_suffix e.last e.last_digit, number) itself,
      rw nothing (unfold back in refl),
    )
