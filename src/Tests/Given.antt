-- ===== src/Tests/Given.antt =====
-- What the code takes from outside, as concrete functions: random numbers, doubles, clocks and memory.
use llm_river.Base.Decimal.{show_ℕ}
use llm_river.Base.Int.{pos}
use llm_river.Base.{
  ℕ, zero, suc, ◌+◌, ◌-◌, ◌*◌, ◌/◌, ◌%◌, ◌^◌, ◌<◌, ◌≡◌, refl, true, false, arith, ltb, leb,
  if◌then◌else◌,
}
use llm_river.Clock.{Clock, TimeIsUp, sub_u64, ms_to_ns}
use llm_river.Float.{Float}
use llm_river.Json.Number.{is_number-show_ℕ}
use llm_river.Ram.{Readings}
use llm_river.Random.{Rng, IsUniform}
use llm_river.Ram.Sweeps.{InTime}
use llm_river.Report.Valid.{ShowsNumbers}

-- Draws that count upwards, capped at the upper bound.
abbrev pub counting : Rng ℕ
counting = record {
  seeded = λ seed. seed % 5;
  draw = λ lo hi g. (if ltb (lo + g) hi then lo + g else hi, (g + 3) % 5);
}

pub counting-IsUniform : IsUniform counting
counting-IsUniform = record { ge_lo = λ lo hi g h. ground arith; le_hi = λ lo hi g h. ground arith }

-- Doubles as thousandths.
abbrev pub thousandths : Float ℕ
thousandths = record {
  of_ℕ = λ n. n * 1000;
  lit = λ m e. m * 1000 / 10 ^ e;
  add = λ a b. a + b;
  sub = λ a b. a - b;
  mul = λ a b. a * b / 1000;
  div = λ a b. a * 1000 / b;
  lt = ltb;
  le = leb;
  is_nan = λ a. false;
  is_inf = λ a. false;
  show = show_ℕ;
}

pub thousandths-ShowsNumbers : ShowsNumbers thousandths
thousandths-ShowsNumbers = record { number_of = λ v _ _. is_number-show_ℕ v }

-- A clock whose readings are 0.6 ms apart: 1 ms is up at its reading 2.
abbrev pub ticking : Clock
ticking = λ k. k * 600_000

pub ticking-TimeIsUp : TimeIsUp ticking (ticking 0) (ms_to_ns (pos 1)) 1 1
unfolding sub_u64 ms_to_ns
ticking-TimeIsUp = record { running = λ k lt. early k lt; up = refl }
  where
    early : (k : ℕ) → k < 1 → ltb (sub_u64 (ticking (1 + k)) (ticking 0)) (ms_to_ns (pos 1)) ≡ true
    early zero lt = refl
    early (suc k) lt = absurd (omega arith)

abbrev pub readings : Readings
readings = record { of_worker = λ t i. ticking; wall_start = λ t. 0; wall_end = λ t. 1_200_000 + t }

pub readings-InTime : InTime 4 readings (ms_to_ns (pos 1))
readings-InTime = record {
  rounds = λ t i. 1;
  ends = λ t i. ticking-TimeIsUp;
  enough = λ t i. omega arith;
}
