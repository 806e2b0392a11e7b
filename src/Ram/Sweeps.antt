-- ===== src/Ram/Sweeps.antt =====
-- The sweep of tools/roofline/src/ram_bench.cpp: it ends, stays inside the buffers, and measures each
-- thread count once.
use mathlib.Core.List.{map}
use mathlib.Core.Path.{subst, ap₂}
use llm_river.Base.Int.{ℤ, pos}
use llm_river.Base.Run.{done}
use llm_river.Base.{
  ℕ, zero, suc, ◌+◌, ◌*◌, ◌%◌, ◌^◌, ◌≤◌, ◌<◌, some, List, [], ◌∷◌, ◌≡◌, refl, ◌∙◌, sym, arith,
  length, length-set, get_elem?, set, All,
}
use llm_river.Clock.{Clock, TimeIsUp, sub_u64, ms_to_ns}
use llm_river.Float.{Float}
use llm_river.Ram.Kernels.{HoldsBytes, HoldsBytes-memory_after, memory_after, run_kernel_lem}
use llm_river.Ram.Steps.{thread_steps-le}
use llm_river.Ram.Passes.{AlignedBuffer, Kernel}
use llm_river.Ram.{Readings, thread_steps, worker, run_workers, scaling_point, sweep_steps, sweep}
use llm_river.Report.Structs.{ThreadScalingPoint}

-- The allocation succeeded, and the memory is that of the buffer's bytes.
pub record IsReady (b : AlignedBuffer) : Type 0 where
  pub words : List ℕ
  pub allocated : b.ptr ≡ some words
  pub holds : HoldsBytes b.bytes words

-- Every worker's time is up before the fuel is.
pub record InTime (fuel : ℕ) (clock : Readings) (duration_ns : ℕ) : Type 0 where
  pub rounds : ℕ → ℕ → ℕ
  pub ends :
      (t i : ℕ) → TimeIsUp (clock.of_worker t i) (clock.of_worker t i 0) duration_ns 1 (rounds t i)
  pub enough : (t i : ℕ) → rounds t i < fuel

get_elem?-All :
    (P : AlignedBuffer → Type 0) (bs : List AlignedBuffer) (i : ℕ)
    → All P bs
    → i < length bs
    → (b : AlignedBuffer) × (get_elem? bs i ≡ some b) × P b
get_elem?-All P [] i h lt = elim lt [ ]
get_elem?-All P (b ∷ bs) zero (h, hs) lt = (b, refl, h)
get_elem?-All P (b ∷ bs) (suc i) (h, hs) lt = get_elem?-All P bs i hs (omega arith)

All-set :
    (P : AlignedBuffer → Type 0) (bs : List AlignedBuffer) (i : ℕ) (b : AlignedBuffer)
    → All P bs
    → P b
    → All P (set bs i b)
All-set P [] i b h p = tt
All-set P (c ∷ bs) zero b (h, hs) p = (p, hs)
All-set P (c ∷ bs) (suc i) b (h, hs) p = (h, All-set P bs i b hs p)

worker_done :
    (fuel : ℕ) (kind : Kernel) (clock : Clock) (duration_ns n : ℕ) (b : AlignedBuffer)
    → IsReady b
    → TimeIsUp clock (clock 0) duration_ns 1 n
    → n < fuel
    → (b' : AlignedBuffer) × (worker fuel kind clock duration_ns b
        ≡ done (suc n % 2 ^ 64 * b.bytes % 2 ^ 64, b'))
      × IsReady b'
unfolding worker
worker_done fuel kind clock duration_ns n b ready t enough =
    let after = memory_after kind ready.words in
    (
      record b { ptr = some after },
      rw (
        ready.allocated,
        run_kernel_lem fuel kind clock duration_ns b.bytes ready.words n ready.holds t enough,
      ),
      record {
        words = after;
        allocated = refl;
        holds = HoldsBytes-memory_after kind b.bytes ready.words ready.holds;
      },
    )

scaling_point_threads {ℓ} :
    {F : Type ℓ} (float : Float F) (t total wall_ns : ℕ)
    → (scaling_point float t total wall_ns).threads ≡ pos t
unfolding scaling_point
scaling_point_threads float t total wall_ns = refl

module _ (fuel : ℕ) (kind : Kernel) (clock : Readings) (duration_ns : ℕ)
    (timely : InTime fuel clock duration_ns) where
  run_workers_done :
      (t left i : ℕ) (bs : List AlignedBuffer)
      → All IsReady bs
      → i + left ≤ length bs
      → (total : ℕ) × (bs' : List AlignedBuffer) × (run_workers fuel kind
            (clock.of_worker t)
            duration_ns
            left
            i
            bs
          ≡ done (total, bs'))
        × All IsReady bs'
        × (length bs' ≡ length bs)
  unfolding run_workers
  run_workers_done t zero i bs ready h = (0, bs, refl, ready, refl)
  run_workers_done t (suc left) i bs ready h =
      let (b, at, ok) = get_elem?-All IsReady bs i ready (omega arith) in
      let (b', worked, ok') =
        worker_done fuel kind (clock.of_worker t i) duration_ns (timely.rounds t i) b ok
          (timely.ends t i) (timely.enough t i) in
      let (total, bs', rest, readies, len) =
        run_workers_done t left (i + 1) (set bs i b') (All-set IsReady bs i b' ready ok')
          (rw (length-set bs i b') (omega arith)) in
      (
        (suc (timely.rounds t i) % 2 ^ 64 * b.bytes % 2 ^ 64 + total) % 2 ^ 64,
        bs',
        rw (at, worked, rest) refl,
        readies,
        len ∙ length-set bs i b',
      )

  module _ {ℓ} {F : Type ℓ} (float : Float F) where
    sweep_steps_done :
        (steps : List ℕ) (bs : List AlignedBuffer)
        → All IsReady bs
        → All (λ t. t ≤ length bs) steps
        → (points : List (ThreadScalingPoint F)) × (bs' : List AlignedBuffer) × (sweep_steps float
              fuel kind clock duration_ns steps bs
            ≡ done (points, bs'))
          × (map (λ p. p.threads) points ≡ map pos steps)
          × All IsReady bs'
          × (length bs' ≡ length bs)
    unfolding sweep_steps
    sweep_steps_done [] bs ready h = ([], bs, refl, refl, ready, refl)
    sweep_steps_done (t ∷ steps) bs ready (h, hs) =
        let (total, bs', ran, ready', len) = run_workers_done t t 0 bs ready (omega arith) in
        let (points, bs'', rest, threads, ready'', len') =
          sweep_steps_done steps bs' ready' (subst (λ n. All (λ t'. t' ≤ n) steps) (sym len) hs) in
        let wall_ns : ℕ = sub_u64 (clock.wall_end t) (clock.wall_start t) in
        let p = scaling_point float t total wall_ns in
        (
          p ∷ points,
          bs'',
          rw (ran, rest) refl,
          ap₂ ◌∷◌ (scaling_point_threads float t total wall_ns) threads,
          ready'',
          len' ∙ len,
        )

-- With a buffer for each thread and the time of every worker up, a sweep ends, stays inside the
-- buffers, leaves them ready, and has one point for each step of `thread_steps`, in their order.
pub sweep_done {ℓ} :
    {F : Type ℓ} (float : Float F) (fuel : ℕ) (kind : Kernel) (clock : Readings)
    (bs : List AlignedBuffer) (m : ℕ) (duration_ms : ℤ)
    → InTime fuel clock (ms_to_ns duration_ms)
    → All IsReady bs
    → length bs ≡ m
    → (points : List (ThreadScalingPoint F)) × (bs' : List AlignedBuffer) × (sweep float fuel kind
          clock bs
          (pos m)
          duration_ms
        ≡ done (points, bs'))
      × (map (λ p. p.threads) points ≡ map pos (thread_steps (pos m)))
      × All IsReady bs'
      × (length bs' ≡ m)
unfolding sweep
sweep_done float fuel kind clock bs m duration_ms timely ready len =
    let (points, bs', ran, threads, ready', len') =
      sweep_steps_done fuel kind clock (ms_to_ns duration_ms) timely float (thread_steps (pos m)) bs
        ready
        (subst (λ n. All (λ t. t ≤ n) (thread_steps (pos m))) (sym len) (thread_steps-le m)) in
    (points, bs', ran, threads, ready', len' ∙ len)
