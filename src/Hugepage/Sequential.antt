-- ===== src/Hugepage/Sequential.antt =====
-- `measure_sequential_bandwidth` of tools/roofline/src/hugepage_bench.cpp.
use llm_river.Base.Int.{ℤ}
use llm_river.Base.{
  ℕ, zero, suc, ◌+◌, ◌*◌, ◌/◌, ◌%◌, ◌^◌, ◌≤◌, ◌<◌, true, false, some, List, [], ◌∷◌, ◌≡◌, refl, ◌∙◌,
  arith, ltb, ◌==◌, if◌then◌else◌, get_or, length,
}
use llm_river.Clock.{Clock, TimeIsUp, ms_to_ns, sub_u64, repeat, timed_loop-repeat}
use llm_river.Float.{Float}
use llm_river.Hugepage.{sum_lines, Streamed, stream_pass, measure_sequential_bandwidth}

-- The sum of the nodes.
abbrev pub sum : List ℕ → ℕ
sum [] = 0
sum (x ∷ xs) = x + sum xs

-- From line `d` on, where the nodes `xs` are still to come.
sum_lines-sum :
    (arr xs : List ℕ) (left words d i acc : ℕ)
    → ((k : ℕ) → get_or arr (d + k) 0 ≡ get_or xs k 0)
    → i ≡ 8 * d
    → words ≡ 8 * (d + length xs)
    → length xs ≤ left
    → acc < 2 ^ 64
    → sum_lines arr left words i acc ≡ (acc + sum xs) % 2 ^ 64
unfolding sum_lines
sum_lines-sum arr [] zero words d i acc here ei ew room small = omega arith
sum_lines-sum arr (x ∷ xs) zero words d i acc here ei ew room small = absurd (omega arith)
sum_lines-sum arr [] (suc left) words d i acc here ei ew room small =
    let over : ltb i words ≡ false = ground arith in rw over (omega arith)
sum_lines-sum arr (x ∷ xs) (suc left) words d i acc here ei ew room small =
    let on : ltb i words ≡ true = ground arith in
    let at : i / 8 ≡ d + 0 = omega arith in
    rw (on, at, here 0)
      (sum_lines-sum arr xs left words (suc d) (i + 8) ((acc + x) % 2 ^ 64)
          (λ k. let same : suc d + k ≡ d + suc k = omega arith in rw same (here (suc k)))
          (omega arith) (omega arith) (omega arith) (omega arith)
        ∙ omega arith)

repeat-stream_pass :
    (arr : List ℕ) (m : ℕ) (s : Streamed)
    → s.acc < 2 ^ 64
    → s.bytes < 2 ^ 64
    → ((repeat m (stream_pass arr (64 * length arr)) s).acc ≡ (s.acc + m * sum arr) % 2 ^ 64)
      × ((repeat m (stream_pass arr (64 * length arr)) s).bytes
          ≡ (s.bytes + m * (64 * length arr)) % 2 ^ 64)
unfolding stream_pass
repeat-stream_pass arr zero s ha hb = (omega arith, omega arith)
repeat-stream_pass arr (suc m) s ha hb =
    let size : ℕ = 64 * length arr in
    let acc : (stream_pass arr size s).acc ≡ (s.acc + sum arr) % 2 ^ 64 =
      sum_lines-sum arr arr (size / 8) (size / 8) 0 0 s.acc
        (λ k. let same : 0 + k ≡ k = omega arith in rw same refl) refl (omega arith) (omega arith)
        ha in
    let (eacc, ebytes) =
      repeat-stream_pass arr m (stream_pass arr size s) (omega (arith, acc)) (omega arith) in
    (omega (arith, eacc, acc), omega (arith, ebytes))

module _ {ℓ} {F : Type ℓ} (float : Float F) where
  -- `bytes` bytes in `elapsed` ns.
  abbrev pub streamed_rate : ℕ → ℕ → F
  streamed_rate bytes elapsed =
      if elapsed == 0 then float.of_ℕ 0 else float.div (float.of_ℕ bytes) (float.of_ℕ elapsed)

module _ {ℓ} {F : Type ℓ} (float : Float F) (fuel : ℕ) (clock : Clock) (duration_ms : ℤ) (n : ℕ)
    (up : TimeIsUp clock (clock 0) (ms_to_ns duration_ms) 1 n) (enough : n < fuel)
    (arr : List ℕ) where
  -- With its time up at pass `n + 1`, the sequential measurement of a mapping of 64 bytes a node ends. Each
  -- pass adds every node once, and the result is the bytes of all passes over the elapsed time, or 0 where no
  -- time has elapsed.
  pub measure_sequential_bandwidth_lem :
      (measure_sequential_bandwidth float fuel clock arr (64 * length arr) duration_ms
        ≡ some (
            streamed_rate float
              (suc n * (64 * length arr) % 2 ^ 64)
              (sub_u64 (clock (n + 2)) (clock 0))))
      × ((repeat (suc n) (stream_pass arr (64 * length arr)) (record { acc = 0; bytes = 0 })).acc
          ≡ suc n * sum arr % 2 ^ 64)
  unfolding measure_sequential_bandwidth
  measure_sequential_bandwidth_lem =
      let s : Streamed = record { acc = 0; bytes = 0 } in
      let size : ℕ = 64 * length arr in
      let (acc, bytes) = repeat-stream_pass arr (suc n) s (omega arith) (omega arith) in
      let at : 1 + suc n ≡ n + 2 = omega arith in
      let total : (repeat (suc n) (stream_pass arr size) s).bytes
          ≡ suc n * (64 * length arr) % 2 ^ 64 =
        omega (arith, bytes) in
      (
        rw
            (
              timed_loop-repeat clock (clock 0) (ms_to_ns duration_ms) (stream_pass arr size) n 1
                  fuel s up enough,
              measure_sequential_bandwidth,
            )
            (rw (at, total) refl),
        omega (arith, acc),
      )
