-- ===== src/Clock.antt =====
-- The timed loops of the benchmarks, `do { … } while (now_ns() - start < duration_ns);`, over the
-- readings that a thread gets of `now_ns()` (tools/roofline/src/util.hpp), one after the other.
use llm_river.Base.Int.{ℤ, to_u64}
use llm_river.Base.{
  ℕ, Bool, Bool-cases, inl, inr, zero, suc, ◌+◌, ◌-◌, ◌*◌, ◌%◌, ◌^◌, ◌<◌, ◌≡◌, refl, true, false,
  Option, none, some, arith, ltb, if◌then◌else◌,
}

-- `a - b` in `uint64_t`.
unfoldable pub sub_u64 : ℕ → ℕ → ℕ
sub_u64 a b = (a + 2 ^ 64 - b % 2 ^ 64) % 2 ^ 64

-- `static_cast<uint64_t>(duration_ms) * 1000000ull`
unfoldable pub ms_to_ns : ℤ → ℕ
ms_to_ns duration_ms = to_u64 duration_ms * 1000000 % 2 ^ 64

-- The clock's readings, by their number.
abbrev pub Clock : Type 0
Clock = ℕ → ℕ

-- The loop with the state `s`, before reading `i` of the clock. `none` is the end of the fuel: the
-- loop ends only if some reading comes that is `duration` past the start.
unfoldable pub timed_loop {ℓ} : {S : Type ℓ} → Clock → ℕ → ℕ → (S → S) → ℕ → ℕ → S → Option (S × ℕ)
timed_loop clock start duration body zero i s = none
timed_loop clock start duration body (suc f) i s =
    let rest = timed_loop clock start duration body f (i + 1) (body s) in
    if ltb (sub_u64 (clock i) start) duration then rest else some (body s, i + 1)

-- The same loop with a `break` in its body, which is a false flag: nothing is read after it. The number
-- is that of the next reading.
unfoldable pub break_loop {ℓ} :
    {S : Type ℓ} → Clock → ℕ → ℕ → (S → Bool × S) → ℕ → ℕ → S → Option (S × ℕ)
unfolding sub_u64
break_loop clock start duration body zero i s = none
break_loop clock start duration body (suc f) i s =
    let (more, s') = body s in
    let rest = break_loop clock start duration body f (i + 1) s' in
    if more
    then (if ltb (sub_u64 (clock i) start) duration then rest else some (s', i + 1))
    else some (s', i)

-- Reading `i + n` is the first from reading `i` on at which the time is up.
pub record TimeIsUp (clock : Clock) (start duration i n : ℕ) : Type 0 where
  pub running : (k : ℕ) → k < n → ltb (sub_u64 (clock (i + k)) start) duration ≡ true
  pub up : ltb (sub_u64 (clock (i + n)) start) duration ≡ false

-- After a reading before the time is up, one reading fewer is left.
one_reading_fewer :
    (clock : Clock) (start duration i n : ℕ)
    → TimeIsUp clock start duration i (suc n)
    → TimeIsUp clock start duration (i + 1) n
one_reading_fewer clock start duration i n t = record {
  running = λ k lt.
      let same : i + suc k ≡ i + 1 + k = omega arith in
      rw same at (t.running (suc k) (omega arith));
  up = let same : i + suc n ≡ i + 1 + n = omega arith in rw same at t.up;
}

abbrev pub repeat {ℓ} : {S : Type ℓ} → ℕ → (S → S) → S → S
repeat zero body s = s
repeat (suc n) body s = repeat n body (body s)

-- A timed loop makes one pass more than the readings before the time is up.
pub timed_loop-repeat {ℓ} :
    {S : Type ℓ} (clock : Clock) (start duration : ℕ) (body : S → S) (n i fuel : ℕ) (s : S)
    → TimeIsUp clock start duration i n
    → n < fuel
    → timed_loop clock start duration body fuel i s ≡ some (repeat (suc n) body s, i + suc n)
unfolding timed_loop
timed_loop-repeat clock start duration body n i zero s t h = elim h [ ]
timed_loop-repeat clock start duration body zero i (suc f) s t h =
    let here : i + 0 ≡ i = omega arith in
    let one : i + 1 ≡ i + suc 0 = omega arith in rw (rw here at t.up) (rw one refl)
timed_loop-repeat clock start duration body (suc n) i (suc f) s t h =
    let here : i + 0 ≡ i = omega arith in
    let far : i + 1 + suc n ≡ i + suc (suc n) = omega arith in
    let later = one_reading_fewer clock start duration i n t in
    rw (rw here at (t.running 0 (omega arith))) (
      rw far at
        (timed_loop-repeat clock start duration body n (i + 1) f (body s) later (omega arith)))

-- A loop with a `break` ends too, no later than at the reading at which the time is up, and keeps what
-- its body keeps.
pub break_loop-keeps {ℓ κ} :
    {S : Type ℓ} (clock : Clock) (start duration : ℕ) (body : S → Bool × S) (P : S → Type κ)
    → ((s : S) → P s → P (body s).1)
    → (n i fuel : ℕ) (s : S) → TimeIsUp clock start duration i n
    → n < fuel
    → P s
    → (s' : S) × (j : ℕ) × (break_loop clock start duration body fuel i s ≡ some (s', j)) × P s'
unfolding break_loop
break_loop-keeps clock start duration body P keeps n i zero s t lt h = elim lt [ ]
break_loop-keeps clock start duration body P keeps zero i (suc f) s t lt h =
    elim (Bool-cases (body s).0) [
      | inr e ↦ ((body s).1, i, rw e refl, keeps s h)
      | inl e ↦
          let here : i + 0 ≡ i = omega arith in
          ((body s).1, i + 1, rw (e, rw here at t.up) refl, keeps s h)
    ]
break_loop-keeps clock start duration body P keeps (suc n) i (suc f) s t lt h =
    elim (Bool-cases (body s).0) [
      | inr e ↦ ((body s).1, i, rw e refl, keeps s h)
      | inl e ↦
          let here : i + 0 ≡ i = omega arith in
          let (s', j, ran, h') =
            break_loop-keeps clock start duration body P keeps n (i + 1) f (body s).1
              (one_reading_fewer clock start duration i n t) (omega arith) (keeps s h) in
          (s', j, rw (e, rw here at (t.running 0 (omega arith))) ran, h')
    ]
