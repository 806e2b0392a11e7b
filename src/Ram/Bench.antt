-- ===== src/Ram/Bench.antt =====
-- `run_ram_bench` of tools/roofline/src/ram_bench.cpp.
use mathlib.Core.List.{map, tail}
use mathlib.Core.Path.{subst}
use llm_river.Base.Int.{ℤ, pos, negsuc, to_u64}
use llm_river.Base.Run.{done, stopped, length_error}
use llm_river.Base.{
  ℕ, zero, suc, ◌+◌, ◌*◌, ◌/◌, ◌%◌, ◌^◌, ◌≤◌, ◌<◌, Bool, true, false, some, List, [], ◌∷◌, ◌++◌,
  ◌≡◌, refl, ap, ◌∙◌, arith, length, All, Ascends, ltb, ◌⊎◌,
}
use llm_river.Clock.{ms_to_ns}
use llm_river.Float.{Float}
use llm_river.Plateau.{IsPlateau, Grows, back, Positive, plateau, plateau_lem}
use llm_river.Ram.Steps.{thread_steps_lem, below}
use llm_river.Ram.Sweeps.{IsReady, InTime, sweep_done}
use llm_river.Ram.Passes.{Kernel, read, write_plain, write_nt, new_buffer, word_fill}
use llm_river.Ram.{
  Readings, thread_steps, new_buffers, single_thread, saturation, run_ram_bench, max_buffers,
  candidates,
}
use llm_river.Report.Structs.{ThreadScalingPoint, RamBenchResult}

length-word_fill : (n : ℕ) → length (word_fill n) ≡ n
length-word_fill zero = refl
length-word_fill (suc n) = ap suc (length-word_fill n)

-- A buffer whose allocation succeeds holds whole cache lines, at least `n` bytes of them.
pub new_buffer-IsReady :
    (has_room : ℕ → Bool) (n : ℕ)
    → has_room ((n + 63) % 2 ^ 64 / 64 * 64) ≡ true
    → n + 63 < 2 ^ 64
    → IsReady (new_buffer has_room n)
      × (n ≤ (new_buffer has_room n).bytes)
      × ((new_buffer has_room n).bytes < n + 64)
unfolding new_buffer
new_buffer-IsReady has_room n room fits =
    let bytes : ℕ = (n + 63) % 2 ^ 64 / 64 * 64 in
    (
      record {
        words = word_fill (bytes / 8);
        allocated = rw room refl;
        holds = record { words_fit = length-word_fill (bytes / 8); lines = omega arith };
      },
      omega arith,
      omega arith,
    )

new_buffers-IsReady :
    (has_room : ℕ → ℕ → Bool) (n left i : ℕ)
    → ((j bytes : ℕ) → has_room j bytes ≡ true)
    → n + 63 < 2 ^ 64
    → All IsReady (new_buffers has_room n left i) × (length (new_buffers has_room n left i) ≡ left)
unfolding new_buffers
new_buffers-IsReady has_room n zero i room fits = (tt, refl)
new_buffers-IsReady has_room n (suc left) i room fits =
    let (h, len) = new_buffers-IsReady has_room n left (i + 1) room fits in
    (((new_buffer-IsReady (has_room i) n (room i _) fits).0, h), ap suc len)

-- A negative thread count, as `--ram-threads=-1` gives, ends the bench with `std::length_error`
-- before anything is measured.
pub run_ram_bench_negative {ℓ} :
    {F : Type ℓ} (float : Float F) (fuel : ℕ) (has_room : ℕ → ℕ → Bool) (clock : Kernel → Readings)
    (buffer_bytes n : ℕ) (duration_ms : ℤ)
    → n < 2 ^ 31
    → run_ram_bench float fuel has_room clock buffer_bytes (negsuc n) duration_ms
      ≡ stopped length_error
unfolding run_ram_bench
run_ram_bench_negative float fuel has_room clock buffer_bytes n duration_ms h =
    let huge : ltb max_buffers (to_u64 (negsuc n)) ≡ true = ground arith in rw huge refl

steps_begin : (m : ℕ) → (ts : List ℕ) × (thread_steps (pos (suc m)) ≡ 1 ∷ ts) × Ascends 0 (1 ∷ ts)
steps_begin zero = ([], (thread_steps_lem 0).0, omega arith)
steps_begin (suc m) =
    let (spelled, up, _, _) = thread_steps_lem (suc m) in
    let (ts, e) = first in (ts, spelled ∙ e, subst (Ascends 0) (spelled ∙ e) up)
  where
    first : (ts : List ℕ) × (below (suc (suc m)) candidates ++ suc (suc m) ∷ [] ≡ 1 ∷ ts)
    first = (below (suc (suc m)) (tail candidates) ++ suc (suc m) ∷ [], ground arith)

Positive-threads {ℓ} :
    {F : Type ℓ} (points : List (ThreadScalingPoint F)) (ts : List ℕ) (lo : ℕ)
    → map (λ p. p.threads) points ≡ map pos ts
    → Ascends lo ts
    → Positive (λ (p : ThreadScalingPoint F). p.threads) points
Positive-threads [] ts lo e a = tt
Positive-threads (p ∷ ps) [] lo e a = cc
Positive-threads (p ∷ ps) (zero ∷ ts) lo e a = absurd (omega arith)
Positive-threads (p ∷ ps) (suc t ∷ ts) lo e (lt, a) =
    ((t, cc), Positive-threads ps ts (suc t) (cc) a)

-- The points of a sweep with one thread or more: the first is with one thread, and every count is
-- positive.
points_lem {ℓ} :
    {F : Type ℓ} (m : ℕ) (points : List (ThreadScalingPoint F))
    → map (λ p. p.threads) points ≡ map pos (thread_steps (pos (suc m)))
    → (p : ThreadScalingPoint F) × (ps : List (ThreadScalingPoint F)) × (points ≡ p ∷ ps)
      × (p.threads ≡ pos 1)
      × Positive (λ (q : ThreadScalingPoint F). q.threads) (p ∷ ps)
points_lem {F} m points e = split points (e ∙ ap (map pos) (steps_begin m).1)
  where
    split :
        (points : List (ThreadScalingPoint F))
        → map (λ p. p.threads) points ≡ pos 1 ∷ map pos (steps_begin m).0
        → (p : ThreadScalingPoint F) × (ps : List (ThreadScalingPoint F)) × (points ≡ p ∷ ps)
          × (p.threads ≡ pos 1)
          × Positive (λ (q : ThreadScalingPoint F). q.threads) (p ∷ ps)
    split [] e = cc
    split (p ∷ ps) e =
        (p, ps, refl, cc, Positive-threads (p ∷ ps) (1 ∷ (steps_begin m).0) 0 e (steps_begin m).2)

-- The thread counts of a sweep: the candidates below `m + 1`, and `m + 1`.
abbrev pub steps_to : ℕ → List ℕ
steps_to m =
    below (suc m) (1 ∷ 2 ∷ 3 ∷ 4 ∷ 6 ∷ 8 ∷ 12 ∷ 16 ∷ 24 ∷ 32 ∷ 48 ∷ 64 ∷ 96 ∷ 128 ∷ [])
    ++ suc m ∷ []

-- What a finished bench says of `m + 1` threads at most: the sizes that it was given; a point for each step of each sweep; the
-- single-thread ceiling is the bandwidth of the reading sweep's first point, which is with one
-- thread; the saturation is at the first point of that sweep whose bandwidth is positive and whose next
-- step has less than 5% more, however many threads that step adds, or, if there is none, at its last.
pub record IsMeasured {ℓ} {F : Type ℓ} (float : Float F) (buffer_bytes m : ℕ) (r : RamBenchResult F)
    : Type ℓ where
  pub buffer : r.buffer_bytes_per_thread ≡ buffer_bytes
  pub tested : r.max_threads_tested ≡ pos (suc m)
  pub read_threads : map (λ p. p.threads) r.read_scaling ≡ map pos (steps_to m)
  pub plain_threads : map (λ p. p.threads) r.write_plain_scaling ≡ map pos (steps_to m)
  pub nt_threads : map (λ p. p.threads) r.write_nt_scaling ≡ map pos (steps_to m)
  pub first : ThreadScalingPoint F
  pub others : List (ThreadScalingPoint F)
  pub split : r.read_scaling ≡ first ∷ others
  pub one_thread : first.threads ≡ pos 1
  pub single : r.single_thread_read_gbs ≡ first.aggregate_gbs
  pub saturated : ThreadScalingPoint F
  pub threads_of : r.read_saturation_threads ≡ saturated.threads
  pub gbs_of : r.read_saturation_gbs ≡ saturated.aggregate_gbs
  pub levels :
      IsPlateau float (λ p. p.aggregate_gbs) r.read_scaling saturated
      ⊎ (Grows float (λ p. p.aggregate_gbs) r.read_scaling × (back r.read_scaling ≡ some saturated))

-- With room for the buffers and the time of every worker up, `run_ram_bench` with `m + 1` threads at
-- most ends with a result that `IsMeasured` describes, on every machine speed and print of doubles.
pub run_ram_bench_done {ℓ} :
    {F : Type ℓ} (float : Float F) (fuel : ℕ) (has_room : ℕ → ℕ → Bool) (clock : Kernel → Readings)
    (buffer_bytes m : ℕ) (duration_ms : ℤ)
    → m < 2 ^ 31
    → buffer_bytes + 63 < 2 ^ 64
    → ((i bytes : ℕ) → has_room i bytes ≡ true)
    → ((kind : Kernel) → InTime fuel (clock kind) (ms_to_ns duration_ms))
    → (r : RamBenchResult F) × (run_ram_bench float fuel has_room clock buffer_bytes
          (pos (suc m))
          duration_ms
        ≡ done r)
      × IsMeasured float buffer_bytes m r
unfolding run_ram_bench
run_ram_bench_done float fuel has_room clock buffer_bytes m duration_ms small fits room timely =
    let accepted : ltb max_buffers (to_u64 (pos (suc m))) ≡ false = ground arith in
    let bs = new_buffers has_room buffer_bytes (suc m) 0 in
    let (ready₀, len₀) = new_buffers-IsReady has_room buffer_bytes (suc m) 0 room fits in
    let (reads, bs₁, ran₁, threads₁, ready₁, len₁) =
      sweep_done float fuel read (clock read) bs (suc m) duration_ms (timely read) ready₀ len₀ in
    let (plains, bs₂, ran₂, threads₂, ready₂, len₂) =
      sweep_done float fuel write_plain (clock write_plain) bs₁ (suc m) duration_ms
        (timely write_plain) ready₁ len₁ in
    let (nts, bs₃, ran₃, threads₃, _, _) =
      sweep_done float fuel write_nt (clock write_nt) bs₂ (suc m) duration_ms (timely write_nt)
        ready₂ len₂ in
    let (p, ps, points, one, positive) = points_lem m reads threads₁ in
    let spelled : map pos (thread_steps (pos (suc m))) ≡ map pos (steps_to m) =
      ap (map pos) (thread_steps_lem m).0 in
    let (q, found, level) =
      plateau_lem float (λ t. t.aggregate_gbs) (λ t. t.threads) p ps positive in
    (
      record {
        read_scaling = reads;
        write_plain_scaling = plains;
        write_nt_scaling = nts;
        buffer_bytes_per_thread = buffer_bytes;
        max_threads_tested = pos (suc m);
        single_thread_read_gbs = single_thread float reads;
        read_saturation_threads = (saturation float reads).0;
        read_saturation_gbs = (saturation float reads).1;
      },
      rw (accepted, ran₁, ran₂, ran₃) refl,
      record {
        buffer = refl;
        tested = refl;
        read_threads = threads₁ ∙ spelled;
        plain_threads = threads₂ ∙ spelled;
        nt_threads = threads₃ ∙ spelled;
        first = p;
        others = ps;
        split = points;
        one_thread = one;
        single = unfold single_thread in rw points refl;
        saturated = q;
        threads_of =
            unfold saturation in
            ap (λ l. (plateau float (λ t. t.aggregate_gbs) (λ t. t.threads) l).0) points
            ∙ ap (λ r. r.0) found;
        gbs_of =
            unfold saturation in
            ap (λ l. (plateau float (λ t. t.aggregate_gbs) (λ t. t.threads) l).1) points
            ∙ ap (λ r. r.1) found;
        levels = rw points level;
      },
    )
