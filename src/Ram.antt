-- ===== src/Ram.antt =====
-- tools/roofline/src/ram_bench.cpp: the buffers, the three kernels, the sweep over thread counts and
-- the bench. The memory of a buffer is the list of its 64-bit words. A worker of the sweep touches
-- its own buffer and its own slot of `bytes_done` only. `run_workers` runs the workers one after the
-- other, each with the clock readings that its own thread gets; Ram/Threads has them in any order.
pub mod Passes
pub mod Steps
pub mod Kernels
pub mod Sweeps
pub mod Bench
pub mod Threads
pub mod Interleaved
pub mod Progress
use llm_river.Base.Int.{ℤ, pos, negsuc, pos_part, neg_part, leb_ℤ, ltb_ℤ, to_u64}
use llm_river.Base.Run.{
  Run, Why, length_error, undefined, out_of_fuel, done, stopped, ◌>>=◌, ◌>>◌, or_stop,
}
use llm_river.Base.{
  ℕ, zero, suc, ◌+◌, ◌-◌, ◌*◌, ◌/◌, ◌%◌, ◌^◌, Bool, true, false, not, ◌&&◌, Option, none, some,
  List, [], ◌∷◌, ◌++◌, ltb, leb, ◌==◌, if◌then◌else◌, get_elem?, get_or, set,
}
use llm_river.Clock.{Clock, sub_u64, ms_to_ns, timed_loop}
use llm_river.Float.{Float}
use llm_river.Plateau.{back, plateau}
use llm_river.Ram.Passes.{
  AlignedBuffer, Kernel, Pass, kernel_pass, new_buffer, read, run_kernel, stream_words, sum_words,
  word_fill, write_nt, write_plain, write_words,
}
use llm_river.Report.Structs.{ThreadScalingPoint, RamBenchResult}

abbrev pub candidates : List ℕ
candidates = 1 ∷ 2 ∷ 3 ∷ 4 ∷ 6 ∷ 8 ∷ 12 ∷ 16 ∷ 24 ∷ 32 ∷ 48 ∷ 64 ∷ 96 ∷ 128 ∷ []

-- `if (c <= max_threads) steps.push_back(c);`
up_to : ℤ → List ℕ → List ℕ
up_to max_threads [] = []
up_to max_threads (c ∷ cs) =
    if leb_ℤ (pos c) max_threads then c ∷ up_to max_threads cs else up_to max_threads cs

-- `steps.empty() || steps.back() != max_threads`
abbrev lacks : ℕ → Option ℕ → Bool
lacks m none = true
lacks m (some b) = not (b == m)

-- The steps are positive, so they are ℕ.
unfoldable pub thread_steps : ℤ → List ℕ
unfolding up_to back
thread_steps max_threads =
    let steps = up_to max_threads candidates in
    let m = pos_part max_threads in
    if ltb_ℤ (pos 0) max_threads && lacks m (back steps) then steps ++ m ∷ [] else steps

-- The body of a worker's thread, once `go` is set.
unfoldable pub worker : ℕ → Kernel → Clock → ℕ → AlignedBuffer → Run (ℕ × AlignedBuffer)
unfolding run_kernel
worker fuel kind clock duration_ns buffer = do
  words ← or_stop undefined buffer.ptr
  r ← or_stop out_of_fuel (run_kernel fuel kind clock duration_ns buffer.bytes words)
  done (r.0, record buffer { ptr = some r.1 })

-- The readings of the clock in one sweep: those of worker `i` of the step with `t` threads, and
-- those of the main thread before and after the step.
pub record Readings : Type 0 where
  pub of_worker : ℕ → ℕ → Clock
  pub wall_start : ℕ → ℕ
  pub wall_end : ℕ → ℕ

-- The workers from number `i` on, `left` of them: the sum of `bytes_done`, and the buffers.
unfoldable pub run_workers :
    ℕ → Kernel → (ℕ → Clock) → ℕ → ℕ → ℕ → List AlignedBuffer → Run (ℕ × List AlignedBuffer)
unfolding worker
run_workers fuel kind clocks duration_ns zero i buffers = done (0, buffers)
run_workers fuel kind clocks duration_ns (suc left) i buffers = do
  buffer ← or_stop undefined (get_elem? buffers i)
  r ← worker fuel kind (clocks i) duration_ns buffer
  rest ← run_workers fuel kind clocks duration_ns left (i + 1) (set buffers i r.1)
  done ((r.0 + rest.0) % 2 ^ 64, rest.1)

module _ {ℓ} {F : Type ℓ} (float : Float F) where
  open float use {of_ℕ, div, lt}

  -- The point of a step with `t` threads.
  unfoldable pub scaling_point : ℕ → ℕ → ℕ → ThreadScalingPoint F
  scaling_point t total_bytes wall_ns =
      let giga = of_ℕ 1_000_000_000 in
      let seconds = div (of_ℕ wall_ns) giga in
      let gbs = if lt (of_ℕ 0) seconds then div (div (of_ℕ total_bytes) giga) seconds else of_ℕ 0 in
      record {
        threads = pos t;
        aggregate_gbs = gbs;
        per_thread_gbs = if ltb 0 t then div gbs (of_ℕ t) else of_ℕ 0;
      }

  unfoldable pub sweep_steps :
      ℕ
      → Kernel
      → Readings
      → ℕ
      → List ℕ
      → List AlignedBuffer
      → Run (List (ThreadScalingPoint F) × List AlignedBuffer)
  unfolding run_workers scaling_point
  sweep_steps fuel kind clock duration_ns [] buffers = done ([], buffers)
  sweep_steps fuel kind clock duration_ns (t ∷ steps) buffers = do
    r ← run_workers fuel kind (clock.of_worker t) duration_ns t 0 buffers
    let wall_ns = sub_u64 (clock.wall_end t) (clock.wall_start t)
    rest ← sweep_steps fuel kind clock duration_ns steps r.1
    done (scaling_point t r.0 wall_ns ∷ rest.0, rest.1)

  unfoldable pub sweep :
      ℕ
      → Kernel
      → Readings
      → List AlignedBuffer
      → ℤ
      → ℤ
      → Run (List (ThreadScalingPoint F) × List AlignedBuffer)
  unfolding sweep_steps thread_steps ms_to_ns
  sweep fuel kind clock buffers max_threads duration_ms =
      sweep_steps fuel kind clock (ms_to_ns duration_ms) (thread_steps max_threads) buffers

  -- `result.read_scaling.front().aggregate_gbs`, or what it was
  unfoldable pub single_thread : List (ThreadScalingPoint F) → F
  single_thread [] = of_ℕ 0
  single_thread (p ∷ ps) = p.aggregate_gbs

  -- The saturation point: the threads and the bandwidth that the result gets.
  unfoldable pub saturation : List (ThreadScalingPoint F) → ℤ × F
  unfolding plateau
  saturation = plateau float (λ p. p.aggregate_gbs) (λ p. p.threads)

-- `vector<AlignedBuffer>::max_size()`; a larger `reserve` throws `std::length_error`.
abbrev pub max_buffers : ℕ
max_buffers = 2 ^ 59 - 1

-- `for (int i = 0; i < max_threads; ++i) buffers.emplace_back(buffer_bytes_per_thread);`
unfoldable pub new_buffers : (ℕ → ℕ → Bool) → ℕ → ℕ → ℕ → List AlignedBuffer
unfolding new_buffer
new_buffers has_room n zero i = []
new_buffers has_room n (suc left) i =
    new_buffer (has_room i) n ∷ new_buffers has_room n left (i + 1)

-- `has_room i n` says whether the allocation of buffer `i` succeeds.
unfoldable pub run_ram_bench {ℓ} :
    {F : Type ℓ}
    → Float F
    → ℕ
    → (ℕ → ℕ → Bool)
    → (Kernel → Readings)
    → ℕ
    → ℤ
    → ℤ
    → Run (RamBenchResult F)
unfolding new_buffers sweep single_thread saturation
run_ram_bench float fuel has_room clock buffer_bytes_per_thread max_threads duration_ms = do
  or_stop length_error (if ltb max_buffers (to_u64 max_threads) then none else some tt)
  let buffers = new_buffers has_room buffer_bytes_per_thread (pos_part max_threads) 0
  r ← sweep float fuel read (clock read) buffers max_threads duration_ms
  w ← sweep float fuel write_plain (clock write_plain) r.1 max_threads duration_ms
  n ← sweep float fuel write_nt (clock write_nt) w.1 max_threads duration_ms
  let found = saturation float r.0
  done (record {
    read_scaling = r.0;
    write_plain_scaling = w.0;
    write_nt_scaling = n.0;
    buffer_bytes_per_thread = buffer_bytes_per_thread;
    max_threads_tested = max_threads;
    single_thread_read_gbs = single_thread float r.0;
    read_saturation_threads = found.0;
    read_saturation_gbs = found.1;
  })
