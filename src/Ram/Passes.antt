-- ===== src/Ram/Passes.antt =====
-- The buffers and the kernels of tools/roofline/src/ram_bench.cpp.
use llm_river.Base.{
  ℕ, zero, suc, ◌+◌, ◌*◌, ◌/◌, ◌%◌, ◌^◌, Bool, Option, none, some, List, [], ◌∷◌, if◌then◌else◌,
  get_or, set,
}
use llm_river.Clock.{Clock, sub_u64, timed_loop}

pub record AlignedBuffer : Type 0 where
  pub ptr : Option (List ℕ)
  pub bytes : ℕ

abbrev pub word_fill : ℕ → List ℕ
word_fill zero = []
word_fill (suc n) = 0x5A5A_5A5A_5A5A_5A5A ∷ word_fill n

-- `explicit AlignedBuffer(size_t n)`; `has_room` says whether `std::aligned_alloc` succeeds.
unfoldable pub new_buffer : (ℕ → Bool) → ℕ → AlignedBuffer
new_buffer has_room n =
    let bytes = (n + 63) % 2 ^ 64 / 64 * 64 in
    record { ptr = if has_room bytes then some (word_fill (bytes / 8)) else none; bytes = bytes }

-- The state of a kernel's loop: the memory, the sum of the words read, and the passes made.
pub record Pass : Type 0 where
  pub words : List ℕ
  pub sum : ℕ
  pub passes : ℕ

-- `for (size_t i = 0; i < n; ++i) sum += p[i];` with `left` rounds to go
unfoldable pub sum_words : List ℕ → ℕ → ℕ → ℕ → ℕ
sum_words words zero i sum = sum
sum_words words (suc left) i sum = sum_words words left (i + 1) ((sum + get_or words i 0) % 2 ^ 64)

-- `for (size_t i = 0; i < n; ++i) p[i] = pattern + i;`
unfoldable pub write_words : ℕ → ℕ → ℕ → List ℕ → List ℕ
write_words pattern zero i words = words
write_words pattern (suc left) i words =
    write_words pattern left (i + 1) (set words i ((pattern + i) % 2 ^ 64))

-- `for (size_t i = 0; i < n; ++i) _mm_stream_si128(&p[i], val);`, two words at a time
unfoldable pub stream_words : ℕ → ℕ → ℕ → List ℕ → List ℕ
stream_words pattern zero i words = words
stream_words pattern (suc left) i words =
    stream_words pattern left (i + 1) (set (set words (2 * i) pattern) (2 * i + 1) pattern)

pub data Kernel : Type 0 where
  read write_plain write_nt : Kernel

abbrev next_pass : Pass → Pass
next_pass s = record s { passes = (s.passes + 1) % 2 ^ 64 }

-- One pass of `read_kernel`, `write_plain_kernel` or `write_nt_kernel` over `bytes`.
unfoldable pub kernel_pass : Kernel → ℕ → ℕ → Pass → Pass
unfolding sum_words write_words stream_words
kernel_pass read bytes pattern s =
    next_pass (record s { sum = sum_words s.words (bytes / 8) 0 s.sum })
kernel_pass write_plain bytes pattern s =
    next_pass (record s { words = write_words pattern (bytes / 8) 0 s.words })
kernel_pass write_nt bytes pattern s =
    next_pass (record s { words = stream_words pattern (bytes / 16) 0 s.words })

-- A kernel: the bytes that it reports, and the memory that it leaves. Reading 0 of the clock is the
-- start that the worker took.
unfoldable pub run_kernel : ℕ → Kernel → Clock → ℕ → ℕ → List ℕ → Option (ℕ × List ℕ)
unfolding kernel_pass timed_loop sub_u64
run_kernel fuel kind clock duration_ns bytes words =
    elim (timed_loop clock (clock 0) duration_ns (kernel_pass kind bytes 0x1234) fuel 1
      (record { words = words; sum = 0; passes = 0 })) [
        | none ↦ none
        | some (s, _) ↦ some (s.passes * bytes % 2 ^ 64, s.words)
      ]
