-- ===== src/Ram/Interleaved.antt =====
-- The threads of a step of `sweep` of tools/roofline/src/ram_bench.cpp leave what they leave one after the other.
use mathlib.Core.Path.{subst}
use llm_river.Base.Run.{done}
use llm_river.Base.{
  ℕ, zero, suc, ◌+◌, ◌*◌, ◌%◌, ◌^◌, ◌<◌, ◌≤◌, some, List, [], ◌∷◌, ◌≡◌, ◌≢◌, refl, sym, ap, ◌∙◌,
  arith, get_elem?, set, ltb, Bool-cases, inl, inr,
}
use llm_river.Clock.{Clock, TimeIsUp, repeat, timed_loop-repeat}
use llm_river.Ram.Threads.{ended, Crew, first, Reach, IsOn, Reach-IsInOrder}
use llm_river.Ram.Passes.{AlignedBuffer, Kernel, Pass, kernel_pass, run_kernel}
use llm_river.Ram.{worker, run_workers}

get_elem?-set_ne {ℓ} :
    {A : Type ℓ} (xs : List A) (i j : ℕ) (v : A) → i ≢ j → get_elem? (set xs i v) j ≡ get_elem? xs j
get_elem?-set_ne [] i j v h = refl
get_elem?-set_ne (x ∷ xs) zero zero v h = absurd (h refl)
get_elem?-set_ne (x ∷ xs) zero (suc j) v h = refl
get_elem?-set_ne (x ∷ xs) (suc i) zero v h = refl
get_elem?-set_ne (x ∷ xs) (suc i) (suc j) v h = get_elem?-set_ne xs i j v (λ e. h (ap suc e))

-- The time is up at one reading only.
TimeIsUp-unique :
    (clock : Clock) (start duration i m n : ℕ)
    → TimeIsUp clock start duration i m
    → TimeIsUp clock start duration i n
    → m ≡ n
TimeIsUp-unique clock start duration i m n a b = elim (Bool-cases (ltb m n)) [
  | inl e ↦ absurd (let early = b.running m (ground arith) in let late = a.up in cc)
  | inr e ↦ elim (Bool-cases (ltb n m)) [
    | inl e' ↦ absurd (let early = a.running n (ground arith) in let late = b.up in cc)
    | inr e' ↦ ground arith
  ]
]

module _ (t : ℕ) (kind : Kernel) (clocks : ℕ → Clock) (duration_ns : ℕ) (bytes : ℕ → ℕ)
    (words : ℕ → List ℕ) where
  -- What thread `k` stores in `bytes_done`, and its buffer, when its loop ends with `s`.
  abbrev pub bytes_done : ℕ → Pass → ℕ
  bytes_done k s = s.passes * bytes k % 2 ^ 64

  abbrev pub buffer_after : ℕ → Pass → AlignedBuffer
  buffer_after k s = record { ptr = some s.words; bytes = bytes k }

  run_kernel-ended :
      (k n fuel : ℕ) (s : Pass)
      → TimeIsUp (clocks k) (clocks k 0) duration_ns 1 n
      → n < fuel
      → IsOn t kind clocks duration_ns bytes words k (ended s)
      → run_kernel fuel kind (clocks k) duration_ns (bytes k) (words k)
        ≡ some (bytes_done k s, s.words)
  unfolding run_kernel
  run_kernel-ended k n fuel s up enough (m, made, up') =
      let same : n ≡ m = TimeIsUp-unique (clocks k) (clocks k 0) duration_ns 1 n m up up' in
      let last : repeat (suc n) (kernel_pass kind (bytes k) 0x1234)
            (first t kind clocks duration_ns bytes words k)
          ≡ s =
        rw same (sym made) in
      rw
        (
          timed_loop-repeat (clocks k) (clocks k 0) duration_ns (kernel_pass kind (bytes k) 0x1234)
              n 1 fuel (record { words = words k; sum = 0; passes = 0 }) up enough,
          run_kernel,
        )
        (ap (λ (r : Pass). some (r.passes * bytes k % 2 ^ 64, r.words)) last)

  worker-ended :
      (k n fuel : ℕ) (s : Pass)
      → TimeIsUp (clocks k) (clocks k 0) duration_ns 1 n
      → n < fuel
      → IsOn t kind clocks duration_ns bytes words k (ended s)
      → worker fuel kind (clocks k) duration_ns (record { ptr = some (words k); bytes = bytes k })
        ≡ done (bytes_done k s, buffer_after k s)
  unfolding worker
  worker-ended k n fuel s up enough on = rw (run_kernel-ended k n fuel s up enough on) refl

  -- The sum of `bytes_done` of `left` threads from thread `i` on, and the buffers with theirs.
  abbrev pub total : (ℕ → Pass) → ℕ → ℕ → ℕ
  total last zero i = 0
  total last (suc left) i = (bytes_done i (last i) + total last left (i + 1)) % 2 ^ 64

  abbrev pub stored : (ℕ → Pass) → ℕ → ℕ → List AlignedBuffer → List AlignedBuffer
  stored last zero i buffers = buffers
  stored last (suc left) i buffers =
      stored last left (i + 1) (set buffers i (buffer_after i (last i)))

  module _ (fuel : ℕ) (rounds : ℕ → ℕ)
      (ups : (k : ℕ) → TimeIsUp (clocks k) (clocks k 0) duration_ns 1 (rounds k))
      (enough : (k : ℕ) → rounds k < fuel) (last : ℕ → Pass) where
    run_workers-stored :
        (left i : ℕ) (buffers : List AlignedBuffer)
        → ((k : ℕ)
            → i ≤ k
            → k < i + left
            → IsOn t kind clocks duration_ns bytes words k (ended (last k)))
        → ((k : ℕ)
            → i ≤ k
            → k < i + left
            → get_elem? buffers k ≡ some (record { ptr = some (words k); bytes = bytes k }))
        → run_workers fuel kind clocks duration_ns left i buffers
          ≡ done (total last left i, stored last left i buffers)
    unfolding run_workers
    run_workers-stored zero i buffers on at = refl
    run_workers-stored (suc left) i buffers on at =
        let here =
          worker-ended i (rounds i) fuel (last i) (ups i) (enough i)
            (on i (omega arith) (omega arith)) in
        let later =
          run_workers-stored left (i + 1) (set buffers i (buffer_after i (last i)))
            (λ k le lt. on k (omega arith) (omega arith))
            (λ k le lt.
              get_elem?-set_ne buffers i k (buffer_after i (last i)) (λ e. absurd (omega arith))
              ∙ at k (omega arith) (omega arith)) in
        rw (at i (omega arith) (omega arith), here, later) refl

    -- However the passes of the `t` threads of a step interleave, each on its own buffer of the list: when all have
    -- ended, `run_workers`, which runs them one after the other, ends with the sum of their `bytes_done` and with
    -- their buffers. Every thread's time must be up at some reading, and the fuel above its number.
    pub Reach-run_workers :
        (buffers : List AlignedBuffer) (c : Crew)
        → Reach t kind clocks duration_ns bytes words c
        → ((k : ℕ) → k < t → c.phases k ≡ ended (last k))
        → ((k : ℕ)
            → k < t
            → get_elem? buffers k ≡ some (record { ptr = some (words k); bytes = bytes k }))
        → run_workers fuel kind clocks duration_ns t 0 buffers
          ≡ done (total last t 0, stored last t 0 buffers)
    Reach-run_workers buffers c reached finished at =
        let order = Reach-IsInOrder t kind clocks duration_ns bytes words reached in
        run_workers-stored t 0 buffers
          (λ k le lt.
            subst (IsOn t kind clocks duration_ns bytes words k) (finished k (omega arith))
              (order.on k))
          (λ k le lt. at k (omega arith))
