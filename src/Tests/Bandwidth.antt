-- ===== src/Tests/Bandwidth.antt =====
-- ram_bench.cpp with three threads and small buffers.
use mathlib.Core.List.{map}
use llm_river.Base.Int.{ℤ, pos, negsuc}
use llm_river.Base.Run.{done, stopped, length_error}
use llm_river.Base.{
  ℕ, ◌+◌, ◌≤◌, ◌<◌, ◌≡◌, refl, true, some, List, [], ◌∷◌, ◌⊎◌, arith, length, All, Ascends,
}
use llm_river.Clock.{ms_to_ns, timed_loop, timed_loop-repeat}
use llm_river.Plateau.{back, plateau, plateau_lem, IsPlateau, Grows}
use llm_river.Ram.Bench.{new_buffer-IsReady, run_ram_bench_negative, run_ram_bench_done, IsMeasured}
use llm_river.Ram.Kernels.{run_kernel_lem, memory_after}
use llm_river.Ram.Steps.{thread_steps_lem}
use llm_river.Ram.Sweeps.{sweep_done, IsReady}
use llm_river.Ram.Passes.{AlignedBuffer, write_plain, write_nt, new_buffer, run_kernel}
use llm_river.Ram.{thread_steps, sweep, run_ram_bench}
use llm_river.Report.Structs.{ThreadScalingPoint, RamBenchResult}
use llm_river.Tests.Given.{thousandths, ticking, ticking-TimeIsUp, readings, readings-InTime}

thread_steps_lem_example :
    (thread_steps (pos 10) ≡ 1 ∷ 2 ∷ 3 ∷ 4 ∷ 6 ∷ 8 ∷ 10 ∷ [])
    × Ascends 0 (thread_steps (pos 10))
    × (thread_steps (pos 0) ≡ [])
    × (thread_steps (negsuc 9) ≡ [])
thread_steps_lem_example = thread_steps_lem 9

-- Bandwidths that grow by a third and then by nothing.
abbrev bandwidths : List (ℤ × ℕ)
bandwidths = (pos 1, 900) ∷ (pos 2, 1_200) ∷ (pos 4, 1_200) ∷ []

plateau_lem_example :
    (q : ℤ × ℕ) × (plateau thousandths (λ (p : ℤ × ℕ). p.1) (λ p. p.0) bandwidths ≡ (q.0, q.1))
    × (IsPlateau thousandths (λ (p : ℤ × ℕ). p.1) bandwidths q
        ⊎ (Grows thousandths (λ (p : ℤ × ℕ). p.1) bandwidths × (back bandwidths ≡ some q)))
plateau_lem_example =
    plateau_lem thousandths (λ (p : ℤ × ℕ). p.1) (λ p. p.0) (pos 1, 900)
      ((pos 2, 1_200) ∷ (pos 4, 1_200) ∷ []) ((0, refl), ((1, refl), ((3, refl), tt)))

timed_loop-repeat_example : timed_loop ticking 0 1_000_000 (λ n. n + 7) 4 1 5 ≡ some (19, 3)
unfolding ms_to_ns
timed_loop-repeat_example =
    timed_loop-repeat ticking 0 1_000_000 (λ n. n + 7) 1 1 4 5 ticking-TimeIsUp (omega arith)

abbrev eight_words : List ℕ
eight_words = 1 ∷ 2 ∷ 3 ∷ 4 ∷ 5 ∷ 6 ∷ 7 ∷ 8 ∷ []

run_kernel_lem_example :
    run_kernel 4 write_plain ticking 1_000_000 64 eight_words
    ≡ some (128, memory_after write_plain eight_words)
unfolding ms_to_ns
run_kernel_lem_example =
    run_kernel_lem 4 write_plain ticking 1_000_000 64 eight_words 1
      (record { words_fit = refl; lines = refl }) ticking-TimeIsUp (omega arith)

new_buffer-IsReady_example :
    IsReady (new_buffer (λ _. true) 100)
    × (100 ≤ (new_buffer (λ _. true) 100).bytes)
    × ((new_buffer (λ _. true) 100).bytes < 164)
new_buffer-IsReady_example = new_buffer-IsReady (λ _. true) 100 refl (omega arith)

abbrev buffers : List AlignedBuffer
buffers =
    record { ptr = some eight_words; bytes = 64 }
    ∷ record { ptr = some eight_words; bytes = 64 }
    ∷ []

buffers-IsReady : All IsReady buffers
buffers-IsReady = (ready, (ready, tt))
  where
    ready : IsReady (record { ptr = some eight_words; bytes = 64 })
    ready = record {
      words = eight_words;
      allocated = refl;
      holds = record { words_fit = refl; lines = refl };
    }

sweep_done_example :
    (points : List (ThreadScalingPoint ℕ)) × (bs' : List AlignedBuffer) × (sweep thousandths 4
        write_nt readings buffers
        (pos 2)
        (pos 1)
      ≡ done (points, bs'))
    × (map (λ p. p.threads) points ≡ map pos (thread_steps (pos 2)))
    × All IsReady bs'
    × (length bs' ≡ 2)
sweep_done_example =
    sweep_done thousandths 4 write_nt readings buffers 2 (pos 1) readings-InTime buffers-IsReady
      refl

run_ram_bench_negative_example :
    run_ram_bench thousandths 4 (λ _ _. true) (λ _. readings) 64 (negsuc 0) (pos 1)
    ≡ stopped length_error
run_ram_bench_negative_example =
    run_ram_bench_negative thousandths 4 (λ _ _. true) (λ _. readings) 64 0 (pos 1) (omega arith)

run_ram_bench_done_example :
    (r : RamBenchResult ℕ) × (run_ram_bench thousandths 4
        (λ _ _. true)
        (λ _. readings)
        64
        (pos 3)
        (pos 1)
      ≡ done r)
    × IsMeasured thousandths 64 2 r
run_ram_bench_done_example =
    run_ram_bench_done thousandths 4 (λ _ _. true) (λ _. readings) 64 2 (pos 1) (omega arith)
      (omega arith) (λ _ _. refl) (λ _. readings-InTime)
