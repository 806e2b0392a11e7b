-- ===== src/Base/Decimal.antt =====
-- Decimal print of numbers, as `operator<<` and `std::to_string` make it, and what digits spell.
use Prim.Native.Nat.{ℕ, zero, suc, ◌+◌, ◌-◌, ◌*◌, ◌/◌, ◌%◌, ◌≤◌, ◌<◌}
use mathlib.Core.List.{[], ◌∷◌}
use mathlib.Core.Logic.{◌≢◌}
use mathlib.Core.Path.{◌≡◌, ◌∙◌, refl}
use native.Mathlib.Omega.{arith}
use llm_river.Base.Int.{ℤ, pos, negsuc}
use llm_river.Base.Lists.{All}
use llm_river.Base.Tests.{ltb, if◌then◌else◌, Bool-cases}
use llm_river.Base.Text.{Bytes}
use mathlib.Core.Bool.{true, false}
use mathlib.Core.Logic.{inl, inr}

-- The digits of `n` in front of `acc`; the fuel is above `n`.
unfoldable pub digits : ℕ → ℕ → Bytes → Bytes
digits zero n acc = acc
digits (suc f) n acc =
    let acc' = (b'0' + n % 10) ∷ acc in
    let rest = digits f (n / 10) acc' in if ltb n 10 then acc' else rest

unfoldable pub show_ℕ : ℕ → Bytes
unfolding digits
show_ℕ n = digits (suc n) n []

unfoldable pub show_ℤ : ℤ → Bytes
unfolding show_ℕ
show_ℤ (pos n) = show_ℕ n
show_ℤ (negsuc n) = b'-' ∷ show_ℕ (suc n)

abbrev pub IsDigit : ℕ → Type 0
IsDigit c = (b'0' ≤ c) × (c ≤ b'9')

-- The number that digits spell behind `n`, with no bound.
abbrev pub spelled : ℕ → Bytes → ℕ
spelled n [] = n
spelled n (c ∷ cs) = spelled (n * 10 + (c - b'0')) cs

digits_lem :
    (f n : ℕ) (acc : Bytes)
    → n < f
    → All IsDigit acc
    → All IsDigit (digits f n acc)
      × (digits f n acc ≢ [])
      × (spelled 0 (digits f n acc) ≡ spelled n acc)
unfolding digits
digits_lem zero n acc h d = elim h [ ]
digits_lem (suc f) n acc h d = elim (Bool-cases (ltb n 10)) [
  | inl t ↦ rw t ((omega arith, d), (λ e. cc), ap_spelled (omega (arith, small t)) acc)
  | inr t ↦
      let (ds, ne, sp) =
        digits_lem f (n / 10) ((b'0' + n % 10) ∷ acc) (omega (arith, big t)) (omega arith, d) in
      rw t (ds, ne, sp ∙ ap_spelled (omega arith) acc)
]
  where
    small : ltb n 10 ≡ true → n < 10
    small t = ground arith

    big : ltb n 10 ≡ false → 10 ≤ n
    big t = ground arith

    ap_spelled : {a b : ℕ} → a ≡ b → (cs : Bytes) → spelled a cs ≡ spelled b cs
    ap_spelled e cs = rw e

pub show_ℕ_lem : (n : ℕ) → All IsDigit (show_ℕ n) × (show_ℕ n ≢ []) × (spelled 0 (show_ℕ n) ≡ n)
unfolding show_ℕ
show_ℕ_lem n = digits_lem (suc n) n [] (omega arith) tt

digits_begins :
    (f n : ℕ) (acc : Bytes)
    → n < f
    → 0 < n
    → (c : ℕ) × (cs : Bytes) × (digits f n acc ≡ c ∷ cs) × (b'0' < c)
unfolding digits
digits_begins zero n acc h some_value = absurd (omega arith)
digits_begins (suc f) n acc h some_value = elim (Bool-cases (ltb n 10)) [
  | inl t ↦ let small : n < 10 = ground arith in (b'0' + n % 10, acc, rw t refl, omega arith)
  | inr t ↦
      let big : 10 ≤ n = ground arith in
      let (c, cs, e, nonzero) =
        digits_begins f (n / 10) ((b'0' + n % 10) ∷ acc) (omega arith) (omega arith) in
      (c, cs, rw t e, nonzero)
]

-- No number but 0 begins with `0`.
pub show_ℕ_begins : (n : ℕ) → (c : ℕ) × (cs : Bytes) × (show_ℕ (suc n) ≡ c ∷ cs) × (b'0' < c)
unfolding show_ℕ
show_ℕ_begins n = digits_begins (suc (suc n)) (suc n) [] (omega arith) (omega arith)
