-- ===== src/Text/Hex.antt =====
-- Hexadecimal print, as the kernel makes it, and that `strtoull` reads it back.
use llm_river.Base.{
  ℕ, zero, suc, ◌+◌, ◌-◌, ◌*◌, ◌/◌, ◌%◌, ◌^◌, ◌≤◌, ◌<◌, true, false, some, [], ◌∷◌, ◌++◌, length,
  ◌≡◌, ◌≢◌, refl, ap, ◌∙◌, arith, ltb, ◌==◌, if◌then◌else◌, Bytes, All, Bool-cases, inl, inr,
}
use llm_river.Text.{hex_value, leading_hex, hex_part, strtoull_hex, is_space}

abbrev pub hex_digit : ℕ → ℕ
hex_digit d = if ltb d 10 then b'0' + d else b'a' + (d - 10)

-- The digits of `n` in front of `acc`; the fuel is above `n`.
unfoldable pub hex_digits : ℕ → ℕ → Bytes → Bytes
hex_digits zero n acc = acc
hex_digits (suc f) n acc =
    let acc' = hex_digit (n % 16) ∷ acc in
    let rest = hex_digits f (n / 16) acc' in if ltb n 16 then acc' else rest

pub show_hex : ℕ → Bytes
unfolding hex_digits
show_hex n = hex_digits (suc n) n []

abbrev pub IsHexDigit : ℕ → Type 0
IsHexDigit c =
    (d : ℕ) × (hex_value c ≡ some d)
    × (is_space c ≡ false)
    × ((c == b'-') ≡ false)
    × ((c == b'+') ≡ false)
    × ((c == b'x') ≡ false)
    × ((c == b'X') ≡ false)

hex_digit-lem : (d : ℕ) → d < 16 → IsHexDigit (hex_digit d) × (hex_value (hex_digit d) ≡ some d)
hex_digit-lem d h = elim (Bool-cases (ltb d 10)) [
  | inl e ↦
      let small : d < 10 = ground arith in
      rw e (
        (
          d,
          value_low d small,
          ground arith,
          ground arith,
          ground arith,
          ground arith,
          ground arith,
        ),
        value_low d small,
      )
  | inr e ↦
      let large : 10 ≤ d = ground arith in
      rw e (
        (
          d,
          value_high d large h,
          ground arith,
          ground arith,
          ground arith,
          ground arith,
          ground arith,
        ),
        value_high d large h,
      )
]
  where
    value_low : (d : ℕ) → d < 10 → hex_value (b'0' + d) ≡ some d
    value_low d h = ground arith

    value_high : (d : ℕ) → 10 ≤ d → d < 16 → hex_value (b'a' + (d - 10)) ≡ some d
    value_high d h h' = ground arith

hex_digits_lem :
    (f n : ℕ) (acc : Bytes)
    → n < f
    → All IsHexDigit acc
    → All IsHexDigit (hex_digits f n acc)
      × (hex_digits f n acc ≢ [])
      × (leading_hex 0 (hex_digits f n acc) ≡ leading_hex n acc)
unfolding hex_digits
hex_digits_lem zero n acc h ds = elim h [ ]
hex_digits_lem (suc f) n acc h ds =
    let digit = hex_digit-lem (n % 16) (omega arith) in
    elim (Bool-cases (ltb n 16)) [
      | inl e ↦
          let same : 0 * 16 + n % 16 ≡ n = ground arith in
          rw e ((digit.0, ds), (λ e'. cc), one 0 digit.1 ∙ ap (λ m. leading_hex m acc) same)
      | inr e ↦
          let below : n / 16 < f = ground arith in
          let same : n / 16 * 16 + n % 16 ≡ n = omega arith in
          let (all, ne, value) =
            hex_digits_lem f (n / 16) (hex_digit (n % 16) ∷ acc) below (digit.0, ds) in
          rw e (all, ne, value ∙ one (n / 16) digit.1 ∙ ap (λ m. leading_hex m acc) same)
    ]
  where
    one :
        (m : ℕ)
        → hex_value (hex_digit (n % 16)) ≡ some (n % 16)
        → leading_hex m (hex_digit (n % 16) ∷ acc) ≡ leading_hex (m * 16 + n % 16) acc
    one m e = unfold leading_hex in rw (leading_hex, e) refl

show_hex_lem :
    (n : ℕ) → All IsHexDigit (show_hex n) × (show_hex n ≢ []) × (leading_hex 0 (show_hex n) ≡ n)
unfolding show_hex
show_hex_lem n =
    let (all, ne, value) = hex_digits_lem (suc n) n [] (omega arith) tt in
    (all, ne, value ∙ (unfold leading_hex in refl))

hex_part-digits : (s : Bytes) → All IsHexDigit s → hex_part s ≡ leading_hex 0 s
unfolding hex_part
hex_part-digits [] h = refl
hex_part-digits (a ∷ []) h = refl
hex_part-digits (a ∷ b ∷ []) h = refl
hex_part-digits (z ∷ x ∷ d ∷ cs) (_, ((_, _, _, _, _, no_x, no_X), ((v, e, _, _, _, _, _), _))) =
    rw (hex_part, e, no_x, no_X) (ground arith)

abbrev pub zero_digits : ℕ → Bytes
zero_digits zero = []
zero_digits (suc n) = b'0' ∷ zero_digits n

-- At least eight digits, with zeros in front, as the kernel prints an address.
abbrev pub show_hex8 : ℕ → Bytes
show_hex8 n = zero_digits (8 - length (show_hex n)) ++ show_hex n

zero_digits_lem :
    (k : ℕ) (s : Bytes)
    → All IsHexDigit s
    → s ≢ []
    → All IsHexDigit (zero_digits k ++ s)
      × (zero_digits k ++ s ≢ [])
      × (leading_hex 0 (zero_digits k ++ s) ≡ leading_hex 0 s)
unfolding leading_hex
zero_digits_lem zero s h ne = (h, ne, refl)
zero_digits_lem (suc k) s h ne =
    let (all, _, value) = zero_digits_lem k s h ne in
    (((0, refl, refl, refl, refl, refl, refl), all), (λ e. cc), value)

pub show_hex8_lem :
    (n : ℕ) → All IsHexDigit (show_hex8 n) × (show_hex8 n ≢ []) × (leading_hex 0 (show_hex8 n) ≡ n)
show_hex8_lem n =
    let (all, ne, value) = show_hex_lem n in
    let (all8, ne8, same) = zero_digits_lem (8 - length (show_hex n)) (show_hex n) all ne in
    (all8, ne8, same ∙ value)

-- The print of a number below 2^64 is read back, zeros in front or not.
pub strtoull_hex-show_hex8 : (n : ℕ) → n < 2 ^ 64 → strtoull_hex (show_hex8 n) ≡ n
strtoull_hex-show_hex8 n fits =
    let (all, ne, value) = show_hex8_lem n in digits (show_hex8 n) all ne value
  where
    digits : (s : Bytes) → All IsHexDigit s → s ≢ [] → leading_hex 0 s ≡ n → strtoull_hex s ≡ n
    digits [] all ne value = absurd (ne refl)
    digits (c ∷ cs) ((d, e, no_space, no_minus, no_plus, no_x, no_X), rest) ne value =
        let part : hex_part (c ∷ cs) ≡ n =
          hex_part-digits (c ∷ cs) ((d, e, no_space, no_minus, no_plus, no_x, no_X), rest)
          ∙ value in
        let below : ltb n (2 ^ 64) ≡ true = ground arith in
        unfold strtoull_hex in rw (no_space, no_minus, no_plus, part, below) refl
