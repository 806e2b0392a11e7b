-- ===== src/Ram/Kernels.antt =====
-- What the kernels of tools/roofline/src/ram_bench.cpp report, and what they leave in memory.
use mathlib.Core.Path.{ap₂}
use llm_river.Base.{
  ℕ, zero, suc, ◌+◌, ◌*◌, ◌/◌, ◌%◌, ◌^◌, ◌<◌, some, List, [], ◌∷◌, ◌++◌, ◌≡◌, refl, ap, ◌∙◌, sym,
  arith, length, length-append, set, append_assoc,
}
use llm_river.Clock.{Clock, TimeIsUp, repeat, timed_loop-repeat}
use llm_river.Ram.Passes.{
  Kernel, read, write_plain, write_nt, Pass, write_words, stream_words, kernel_pass, run_kernel,
}

-- The words `pattern + i`, `pattern + i + 1` and so on, `n` of them.
abbrev pub counting : ℕ → ℕ → ℕ → List ℕ
counting pattern zero i = []
counting pattern (suc n) i = (pattern + i) % 2 ^ 64 ∷ counting pattern n (i + 1)

abbrev pub replicate : ℕ → ℕ → List ℕ
replicate zero x = []
replicate (suc n) x = x ∷ replicate n x

-- The memory after one pass or more over it.
abbrev pub memory_after : Kernel → List ℕ → List ℕ
memory_after read words = words
memory_after write_plain words = counting 0x1234 (length words) 0
memory_after write_nt words = replicate (length words) 0x1234

length-counting : (p n i : ℕ) → length (counting p n i) ≡ n
length-counting p zero i = refl
length-counting p (suc n) i = ap suc (length-counting p n (i + 1))

length-replicate : (n x : ℕ) → length (replicate n x) ≡ n
length-replicate zero x = refl
length-replicate (suc n) x = ap suc (length-replicate n x)

length-memory_after : (k : Kernel) (words : List ℕ) → length (memory_after k words) ≡ length words
length-memory_after read words = refl
length-memory_after write_plain words = length-counting 0x1234 (length words) 0
length-memory_after write_nt words = length-replicate (length words) 0x1234

memory_after_idem :
    (k : Kernel) (words : List ℕ) → memory_after k (memory_after k words) ≡ memory_after k words
memory_after_idem read words = refl
memory_after_idem write_plain words =
    ap (λ n. counting 0x1234 n 0) (length-counting 0x1234 (length words) 0)
memory_after_idem write_nt words =
    ap (λ n. replicate n 0x1234) (length-replicate (length words) 0x1234)

set-append :
    (pre : List ℕ) (x v : ℕ) (ws : List ℕ) → set (pre ++ x ∷ ws) (length pre) v ≡ pre ++ v ∷ ws
set-append [] x v ws = refl
set-append (p ∷ pre) x v ws = ap (◌∷◌ p) (set-append pre x v ws)

write_words-counting :
    (p : ℕ) (ws pre : List ℕ) (i : ℕ)
    → i ≡ length pre
    → write_words p (length ws) i (pre ++ ws) ≡ pre ++ counting p (length ws) i
unfolding write_words
write_words-counting p [] pre i e = refl
write_words-counting p (w ∷ ws) pre i e =
    let v : ℕ = (p + i) % 2 ^ 64 in
    let wrote : set (pre ++ w ∷ ws) i v ≡ (pre ++ v ∷ []) ++ ws =
      ap (λ j. set (pre ++ w ∷ ws) j v) e
      ∙ set-append pre w v ws
      ∙ sym (append_assoc pre (v ∷ []) ws) in
    ap (write_words p (length ws) (i + 1)) wrote
    ∙ write_words-counting p ws (pre ++ v ∷ []) (i + 1) (omega (arith, length-append pre (v ∷ [])))
    ∙ append_assoc pre (v ∷ []) _

-- Memory in pairs of words.
stream_words-replicate :
    (p n : ℕ) (ws pre : List ℕ) (i : ℕ)
    → 2 * i ≡ length pre
    → length ws ≡ 2 * n
    → stream_words p n i (pre ++ ws) ≡ pre ++ replicate (length ws) p
unfolding stream_words
stream_words-replicate p zero [] pre i e len = refl
stream_words-replicate p zero (w ∷ ws) pre i e len = absurd (omega arith)
stream_words-replicate p (suc n) [] pre i e len = absurd (omega arith)
stream_words-replicate p (suc n) (w ∷ []) pre i e len = absurd (omega arith)
stream_words-replicate p (suc n) (w ∷ x ∷ ws) pre i e len =
    let first : set (pre ++ w ∷ x ∷ ws) (2 * i) p ≡ (pre ++ p ∷ []) ++ x ∷ ws =
      ap (λ j. set (pre ++ w ∷ x ∷ ws) j p) e
      ∙ set-append pre w p (x ∷ ws)
      ∙ sym (append_assoc pre (p ∷ []) (x ∷ ws)) in
    let at : 2 * i + 1 ≡ length (pre ++ p ∷ []) = omega (arith, length-append pre (p ∷ [])) in
    let second : set ((pre ++ p ∷ []) ++ x ∷ ws) (2 * i + 1) p ≡ (pre ++ p ∷ p ∷ []) ++ ws =
      ap (λ j. set ((pre ++ p ∷ []) ++ x ∷ ws) j p) at
      ∙ set-append (pre ++ p ∷ []) x p ws
      ∙ append_assoc pre (p ∷ []) (p ∷ ws)
      ∙ sym (append_assoc pre (p ∷ p ∷ []) ws) in
    ap (λ l. stream_words p n (i + 1) (set l (2 * i + 1) p)) first
    ∙ ap (stream_words p n (i + 1)) second
    ∙ stream_words-replicate p n ws (pre ++ p ∷ p ∷ []) (i + 1)
        (omega (arith, length-append pre (p ∷ p ∷ []))) (omega arith)
    ∙ append_assoc pre (p ∷ p ∷ []) _

-- A buffer's memory: as many words as its bytes hold, the bytes being a multiple of a cache line.
pub record HoldsBytes (bytes : ℕ) (words : List ℕ) : Type 0 where
  pub words_fit : length words ≡ bytes / 8
  pub lines : bytes % 64 ≡ 0

kernel_pass-words :
    (k : Kernel) (bytes : ℕ) (s : Pass)
    → HoldsBytes bytes s.words
    → (kernel_pass k bytes 0x1234 s).words ≡ memory_after k s.words
unfolding kernel_pass
kernel_pass-words read bytes s h = refl
kernel_pass-words write_plain bytes s h =
    rw (← h.words_fit) (write_words-counting 0x1234 s.words [] 0 refl)
kernel_pass-words write_nt bytes s h =
    stream_words-replicate 0x1234 (bytes / 16) s.words [] 0 refl
      (omega (arith, h.words_fit, h.lines))

pub HoldsBytes-memory_after :
    (k : Kernel) (bytes : ℕ) (words : List ℕ)
    → HoldsBytes bytes words
    → HoldsBytes bytes (memory_after k words)
HoldsBytes-memory_after k bytes words h = record {
  words_fit = length-memory_after k words ∙ h.words_fit;
  lines = h.lines;
}

kernel_pass-passes :
    (k : Kernel) (bytes : ℕ) (s : Pass)
    → (kernel_pass k bytes 0x1234 s).passes ≡ (s.passes + 1) % 2 ^ 64
unfolding kernel_pass
kernel_pass-passes read bytes s = refl
kernel_pass-passes write_plain bytes s = refl
kernel_pass-passes write_nt bytes s = refl

repeat-kernel_pass :
    (k : Kernel) (bytes n : ℕ) (s : Pass)
    → HoldsBytes bytes s.words
    → ((repeat (suc n) (kernel_pass k bytes 0x1234) s).words ≡ memory_after k s.words)
      × ((repeat (suc n) (kernel_pass k bytes 0x1234) s).passes ≡ (s.passes + suc n) % 2 ^ 64)
repeat-kernel_pass k bytes zero s h = (kernel_pass-words k bytes s h, kernel_pass-passes k bytes s)
repeat-kernel_pass k bytes (suc n) s h =
    let s' = kernel_pass k bytes 0x1234 s in
    let after : s'.words ≡ memory_after k s.words = kernel_pass-words k bytes s h in
    let (ws, ps) =
      repeat-kernel_pass k bytes n s' (rw after (HoldsBytes-memory_after k bytes s.words h)) in
    (
      ws ∙ ap (memory_after k) after ∙ memory_after_idem k s.words,
      omega (arith, ps, kernel_pass-passes k bytes s),
    )

-- A kernel ends once its time is up. If that is at its reading `n + 1` of the clock, it has made
-- `n + 1` passes, at least one, and reports the bytes of them all, in `uint64_t`. `read` leaves the
-- memory as it was; whatever was there, `write_plain` leaves `0x1234 + i`, in 64 bits, in each word
-- `i`, and `write_nt` leaves 0x1234 in each word.
pub run_kernel_lem :
    (fuel : ℕ) (k : Kernel) (clock : Clock) (duration_ns bytes : ℕ) (words : List ℕ) (n : ℕ)
    → HoldsBytes bytes words
    → TimeIsUp clock (clock 0) duration_ns 1 n
    → n < fuel
    → run_kernel fuel k clock duration_ns bytes words
      ≡ some (suc n % 2 ^ 64 * bytes % 2 ^ 64, memory_after k words)
unfolding run_kernel
run_kernel_lem fuel k clock duration_ns bytes words n h t enough =
    let s : Pass = record { words = words; sum = 0; passes = 0 } in
    let (ws, ps) = repeat-kernel_pass k bytes n s h in
    let ps' : (repeat (suc n) (kernel_pass k bytes 0x1234) s).passes ≡ suc n % 2 ^ 64 =
      omega (arith, ps) in
    rw
      (
        timed_loop-repeat clock (clock 0) duration_ns (kernel_pass k bytes 0x1234) n 1 fuel s t
            enough,
        run_kernel,
      )
      (ap₂ (λ a b. some (a * bytes % 2 ^ 64, b)) ps' ws)
