-- ===== src/Tests/Racing.antt =====
-- Two threads of ram_bench.cpp whose passes interleave.
use llm_river.Base.Run.{done}
use llm_river.Base.{ℕ, zero, suc, ◌<◌, ◌≡◌, ◌⊎◌, refl, true, some, List, [], ◌∷◌, arith, get_elem?}
use llm_river.Clock.{ms_to_ns, TimeIsUp}
use llm_river.Ram.Interleaved.{Reach-run_workers, total, stored}
use llm_river.Ram.Progress.{left, HaveEnded, Reach-left}
use llm_river.Ram.Threads.{
  Phase, waiting, looping, ended, Crew, put, body, after_pass, Step, store, begin, pass, Reach,
  here, next, IsInOrder, Reach-IsInOrder,
}
use llm_river.Ram.Passes.{AlignedBuffer, read, Pass}
use llm_river.Ram.{run_workers}
use llm_river.Tests.Given.{ticking, ticking-TimeIsUp}

abbrev eight_words : List ℕ
eight_words = 1 ∷ 2 ∷ 3 ∷ 4 ∷ 5 ∷ 6 ∷ 7 ∷ 8 ∷ []

abbrev start : Pass
start = record { words = eight_words; sum = 0; passes = 0 }

abbrev one_pass : Pass → Pass
one_pass = body 2 read (λ k. ticking) 1_000_000 (λ k. 64) (λ k. eight_words) 0

abbrev passed : ℕ → ℕ → Pass → Phase
passed k i s = after_pass 2 read (λ k. ticking) 1_000_000 (λ k. 64) (λ k. eight_words) k i s

-- Both threads begin; thread 1 makes a pass, thread 0 two, and thread 1 its second.
abbrev both_begun : ℕ → Phase
both_begun = put 1 (looping 1 start) (put 0 (looping 1 start) (λ k. waiting))

abbrev each_once : ℕ → Phase
each_once = put 0 (passed 0 1 start) (put 1 (passed 1 1 start) both_begun)

abbrev both_ended : Crew
both_ended = record {
  go = true;
  phases = put 1 (passed 1 2 (one_pass start)) (put 0 (passed 0 2 (one_pass start)) each_once);
}

both_ended-Reach : Reach 2 read (λ k. ticking) 1_000_000 (λ k. 64) (λ k. eight_words) both_ended
unfolding after_pass
both_ended-Reach =
    next
      (next
        (next
          (next
            (next (next (next here (store _ refl)) (begin _ 0 (omega arith) refl refl))
              (begin _ 1 (omega arith) refl refl))
            (pass _ 1 1 start (omega arith) refl))
          (pass _ 0 1 start (omega arith) refl))
        (pass _ 0 2 (one_pass start) (omega arith) refl))
      (pass _ 1 2 (one_pass start) (omega arith) refl)

Reach-IsInOrder_example :
    IsInOrder 2 read (λ k. ticking) 1_000_000 (λ k. 64) (λ k. eight_words) both_ended
Reach-IsInOrder_example =
    Reach-IsInOrder 2 read (λ k. ticking) 1_000_000 (λ k. 64) (λ k. eight_words) both_ended-Reach

abbrev last : ℕ → Pass
last k = one_pass (one_pass start)

both-ended : (k : ℕ) → k < 2 → both_ended.phases k ≡ ended (last k)
unfolding after_pass
both-ended zero lt = refl
both-ended (suc zero) lt = refl
both-ended (suc (suc k)) lt = absurd (omega arith)

abbrev two_buffers : List AlignedBuffer
two_buffers =
    record { ptr = some eight_words; bytes = 64 }
    ∷ record { ptr = some eight_words; bytes = 64 }
    ∷ []

two_buffers-get_elem? :
    (k : ℕ) → k < 2 → get_elem? two_buffers k ≡ some (record { ptr = some eight_words; bytes = 64 })
two_buffers-get_elem? zero lt = refl
two_buffers-get_elem? (suc zero) lt = refl
two_buffers-get_elem? (suc (suc k)) lt = absurd (omega arith)

one_ms : TimeIsUp ticking (ticking 0) 1_000_000 1 1
unfolding ms_to_ns
one_ms = ticking-TimeIsUp

Reach-run_workers_example :
    run_workers 4 read (λ k. ticking) 1_000_000 2 0 two_buffers
    ≡ done (
      total 2 read (λ k. ticking) 1_000_000 (λ k. 64) (λ k. eight_words) last 2 0,
      stored 2 read (λ k. ticking) 1_000_000 (λ k. 64) (λ k. eight_words) last 2 0 two_buffers,
    )
Reach-run_workers_example =
    Reach-run_workers 2 read (λ k. ticking) 1_000_000 (λ k. 64) (λ k. eight_words) 4 (λ k. 1)
      (λ k. one_ms) (λ k. omega arith) last two_buffers both_ended both_ended-Reach both-ended
      two_buffers-get_elem?

Reach-left_example :
    ((d : Crew)
      → Step 2 read (λ k. ticking) 1_000_000 (λ k. 64) (λ k. eight_words) both_ended d
      → left (λ k. 1) 2 d < left (λ k. 1) 2 both_ended)
    × (HaveEnded 2 both_ended
        ⊎ ((d : Crew) × Step 2 read
              (λ k. ticking)
              1_000_000
              (λ k. 64)
              (λ k. eight_words)
              both_ended
              d))
Reach-left_example =
    Reach-left 2 read (λ k. ticking) 1_000_000 (λ k. 64) (λ k. eight_words) (λ k. 1) (λ k. one_ms)
      both_ended both_ended-Reach
