-- ===== src/Text/Numbers.antt =====
-- The number readers read back a decimal print.
use llm_river.Base.Decimal.{show_ℕ, show_ℕ_lem, IsDigit, spelled}
use llm_river.Base.Int.{pos}
use llm_river.Base.{
  ℕ, ◌+◌, ◌-◌, ◌*◌, ◌^◌, ◌<◌, true, false, some, [], ◌∷◌, ◌++◌, ◌≡◌, ◌≢◌, refl, ap, ◌∙◌, arith, ltb,
  Bytes, All,
}
use llm_river.Text.{is_digit, leading_number, signed_part, stoull, stol, extract_u64, is_space}

-- A text at which a number ends.
abbrev pub EndsNumber : Bytes → Type 0
EndsNumber [] = Unit
EndsNumber (c ∷ cs) = is_digit c ≡ false

leading_number-spelled :
    (ds rest : Bytes) (n : ℕ)
    → All IsDigit ds
    → EndsNumber rest
    → leading_number n (ds ++ rest) ≡ spelled n ds
unfolding leading_number
leading_number-spelled [] [] n h e = refl
leading_number-spelled [] (c ∷ cs) n h e = rw e
leading_number-spelled (d ∷ ds) rest n (h, hs) e =
    let digit : is_digit d ≡ true = ground arith in
    rw digit (leading_number-spelled ds rest (n * 10 + (d - b'0')) hs e)

signed_part-digits :
    (ds rest : Bytes)
    → ds ≢ []
    → All IsDigit ds
    → EndsNumber rest
    → signed_part (ds ++ rest) ≡ some (false, spelled 0 ds)
unfolding signed_part
signed_part-digits [] rest ne h e = absurd (ne refl)
signed_part-digits (d ∷ ds) rest ne (h, hs) e =
    ground (arith, leading_number-spelled (d ∷ ds) rest 0 (h, hs) e)

pub signed_part-show_ℕ :
    (n : ℕ) (rest : Bytes) → EndsNumber rest → signed_part (show_ℕ n ++ rest) ≡ some (false, n)
signed_part-show_ℕ n rest e =
    let (ds, ne, same) = show_ℕ_lem n in
    signed_part-digits (show_ℕ n) rest ne ds e ∙ ap (λ m. some (false, m)) same

pub stoull-show_ℕ :
    (n : ℕ) (rest : Bytes) → EndsNumber rest → n < 2 ^ 64 → stoull (show_ℕ n ++ rest) ≡ some n
unfolding stoull
stoull-show_ℕ n rest e h =
    let fits : ltb n (2 ^ 64) ≡ true = ground arith in
    rw (signed_part-show_ℕ n rest e, stoull) (rw fits refl)

pub stol-show_ℕ :
    (n : ℕ) (rest : Bytes) → EndsNumber rest → n < 2 ^ 63 → stol (show_ℕ n ++ rest) ≡ some (pos n)
unfolding stol
stol-show_ℕ n rest e h =
    let fits : ltb n (2 ^ 63) ≡ true = ground arith in
    rw (signed_part-show_ℕ n rest e, stol) (rw fits refl)

-- White space in front of a number is skipped.
pub signed_part-spaces :
    (pad s : Bytes) → All (λ c. is_space c ≡ true) pad → signed_part (pad ++ s) ≡ signed_part s
unfolding signed_part
signed_part-spaces [] s h = refl
signed_part-spaces (c ∷ pad) s (h, hs) = rw h (signed_part-spaces pad s hs)

pub extract_u64-show_ℕ :
    (pad : Bytes) (n : ℕ) (rest : Bytes)
    → All (λ c. is_space c ≡ true) pad
    → EndsNumber rest
    → n < 2 ^ 64
    → extract_u64 (pad ++ (show_ℕ n ++ rest)) ≡ n
unfolding extract_u64
extract_u64-show_ℕ pad n rest blank e h =
    let fits : ltb n (2 ^ 64) ≡ true = ground arith in
    rw (signed_part-spaces pad (show_ℕ n ++ rest) blank, signed_part-show_ℕ n rest e, extract_u64)
      (rw fits refl)
