-- ===== src/Disk/Sequential.antt =====
-- The offsets of `measure_sequential`.
use llm_river.Base.Int.{ℤ, pos, pos_part, ltb_ℤ}
use llm_river.Base.{
  ℕ, ◌+◌, ◌^◌, ◌≤◌, ◌<◌, Bool, true, false, some, List, [], ◌∷◌, ◌≡◌, refl, arith, All, Bool-cases,
  inl, inr, if◌then◌else◌,
}
use llm_river.Clock.{Clock, sub_u64, TimeIsUp, ms_to_ns, break_loop-keeps}
use llm_river.Disk.{
  System, Call, pread, fadvise, Reading, next_offset, sequential_pass, measure_sequential,
  chunk_bytes, sequential_result,
}
use llm_river.Float.{Float}

-- A call that asks for bytes of the file only.
abbrev pub InFile : ℕ → Call → Type 0
InFile size (pread fd count offset) = offset + count ≤ size
InFile size (fadvise fd offset len) = offset + len ≤ size
InFile size _ = Unit

-- `pread` reads as many bytes as it is asked for, at most.
pub record ReadsAtMost (system : System) : Type 0 where
  pub at_most :
      (h : List Call) (fd : ℤ) (count offset : ℕ)
      → pos_part (system h (pread fd count offset)) ≤ count

record IsInside (size : ℕ) (s : Reading) : Type 0 where
  offset_le : s.offset ≤ size
  calls_in : All (InFile size) s.calls

next_offset-fits :
    (size offset : ℕ)
    → chunk_bytes ≤ size
    → size < 2 ^ 63
    → offset ≤ size
    → next_offset size offset + chunk_bytes ≤ size
unfolding next_offset
next_offset-fits size offset room small h = ground arith

module _ (system : System) (fd : ℤ) (size : ℕ) (o_direct : Bool) (reads : ReadsAtMost system)
    (room : chunk_bytes ≤ size) (small : size < 2 ^ 63) where
  sequential_pass-IsInside :
      (s : Reading) → IsInside size s → IsInside size (sequential_pass system fd size o_direct s).1
  unfolding sequential_pass
  sequential_pass-IsInside s h =
      let offset : ℕ = next_offset size s.offset in
      let fits : offset + chunk_bytes ≤ size =
        next_offset-fits size s.offset room small h.offset_le in
      let call : Call = pread fd chunk_bytes offset in
      let le : pos_part (system s.calls call) ≤ chunk_bytes =
        reads.at_most s.calls fd chunk_bytes offset in
      elim (Bool-cases (ltb_ℤ (pos 0) (system s.calls call))) [
        | inr e ↦ rw e (record { offset_le = omega arith; calls_in = (fits, h.calls_in) })
        | inl e ↦ rw e (record {
          offset_le = omega arith;
          calls_in = advised o_direct (pos_part (system s.calls call)) le fits;
        })
      ]
    where
      advised :
          (d : Bool) (len : ℕ)
          → len ≤ chunk_bytes
          → next_offset size s.offset + chunk_bytes ≤ size
          → All (InFile size) (
              if d
              then pread fd chunk_bytes (next_offset size s.offset) ∷ s.calls
              else fadvise fd (next_offset size s.offset) len
                ∷ pread fd chunk_bytes (next_offset size s.offset)
                ∷ s.calls)
      advised true len le fits = (fits, h.calls_in)
      advised false len le fits = (omega arith, (fits, h.calls_in))

-- In a file of one chunk at least, `measure_sequential` ends once its time is up, if not before, and
-- neither reads nor advises outside the file, whatever number of bytes its reads give.
pub measure_sequential-InFile {ℓ} :
    {F : Type ℓ} (float : Float F) (fuel : ℕ) (system : System) (clock : Clock) (has_room : Bool)
    (fd : ℤ) (size : ℕ) (o_direct : Bool) (duration_ms : ℤ) (n : ℕ)
    → ReadsAtMost system
    → chunk_bytes ≤ size
    → size < 2 ^ 63
    → TimeIsUp clock (clock 0) (ms_to_ns duration_ms) 1 n
    → n < fuel
    → (gbs : F) × (calls : List Call) × (measure_sequential float fuel system clock has_room fd size
          o_direct duration_ms []
        ≡ some (gbs, calls))
      × All (InFile size) calls
unfolding measure_sequential
measure_sequential-InFile float fuel system clock false fd size o_direct duration_ms n reads room
      small t enough =
    (float.of_ℕ 0, [], refl, tt)
measure_sequential-InFile float fuel system clock true fd size o_direct duration_ms n reads room
      small t enough =
    let start : Reading = record { offset = 0; total = 0; calls = [] } in
    let (s, j, ran, inside) =
      break_loop-keeps clock (clock 0) (ms_to_ns duration_ms)
        (sequential_pass system fd size o_direct) (IsInside size)
        (sequential_pass-IsInside system fd size o_direct reads room small) n 1 fuel start t enough
        (record { offset_le = omega arith; calls_in = tt }) in
    (
      sequential_result float s.total (sub_u64 (clock j) (clock 0)),
      s.calls,
      rw (measure_sequential, ran) refl,
      inside.calls_in,
    )
