-- ===== src/Disk/Random4k.antt =====
-- The offsets of `measure_random4k`.
use llm_river.Base.Int.{ℤ, pos, ltb_ℤ}
use llm_river.Base.{
  ℕ, ◌+◌, ◌-◌, ◌*◌, ◌/◌, ◌^◌, ◌%◌, ◌≤◌, ◌<◌, Bool, true, false, not, ◌&&◌, some, List, [], ◌∷◌, ◌≡◌,
  refl, arith, All, Bool-cases, inl, inr, if◌then◌else◌, ◌==◌,
}
use llm_river.Clock.{Clock, sub_u64, TimeIsUp, ms_to_ns, break_loop-keeps}
use llm_river.Disk.{
  System, Call, pread, fadvise, Random4kState, Random4kResult, random4k_pass, random4k_result,
  measure_random4k, no_result, block_align,
}
use llm_river.Float.{Float}
use llm_river.Random.{Rng, IsUniform}

-- A call that, if it reads, reads one whole block of the file.
abbrev pub IsBlock : ℕ → Call → Type 0
IsBlock size (pread fd count offset) =
    (count ≡ block_align) × (offset % block_align ≡ 0) × (offset + count ≤ size)
IsBlock size _ = Unit

whole_block_lem :
    (fd : ℤ) (size block : ℕ)
    → block + 1 ≤ size / block_align
    → size < 2 ^ 63
    → IsBlock size (pread fd block_align (block * block_align % 2 ^ 64))
whole_block_lem fd size block h small = (refl, omega arith, omega arith)

module _ {G : Type 0} (rng : Rng G) (uniform : IsUniform rng) (system : System) (fd : ℤ) (size : ℕ)
    (o_direct : Bool) (room : block_align ≤ size) (small : size < 2 ^ 63) where
  random4k_pass-IsBlock :
      (s : Random4kState G)
      → All (IsBlock size) s.calls
      → All (IsBlock size) (random4k_pass rng system fd (size / block_align) o_direct s).1.calls
  unfolding random4k_pass
  random4k_pass-IsBlock s h =
      let block : ℕ = (rng.draw 0 (size / block_align - 1) s.rng).0 in
      let le : block ≤ size / block_align - 1 =
        uniform.le_hi 0 (size / block_align - 1) s.rng (omega arith) in
      let whole = whole_block_lem fd size block (omega arith) small in
      let call : Call = pread fd block_align (block * block_align % 2 ^ 64) in
      elim (Bool-cases (ltb_ℤ (pos 0) (system s.calls call))) [
        | inr e ↦ rw e (whole, h)
        | inl e ↦
            rw e (
              advised (not o_direct && (s.ops + 1) % 2 ^ 64 % 256 == 0) (call ∷ s.calls) (whole, h))
      ]
    where
      advised :
          (b : Bool) (calls : List Call)
          → All (IsBlock size) calls
          → All (IsBlock size) (if b then fadvise fd 0 0 ∷ calls else calls)
      advised true calls a = (tt, a)
      advised false calls a = a

-- In a file of one block at least, `measure_random4k` ends once its time is up, if not before, and
-- each of its reads is of one whole block inside the file, at a multiple of the block's size.
pub measure_random4k-IsBlock {ℓ} :
    {F : Type ℓ} (float : Float F) {G : Type 0} (rng : Rng G) (fuel : ℕ) (system : System)
    (clock : Clock) (has_room : Bool) (fd : ℤ) (size : ℕ) (o_direct : Bool) (duration_ms : ℤ)
    (n : ℕ)
    → IsUniform rng
    → block_align ≤ size
    → size < 2 ^ 63
    → TimeIsUp clock (clock 0) (ms_to_ns duration_ms) 1 n
    → n < fuel
    → (r : Random4kResult F) × (calls : List Call) × (measure_random4k float rng fuel system clock
          has_room fd size o_direct duration_ms []
        ≡ some (r, calls))
      × All (IsBlock size) calls
unfolding measure_random4k
measure_random4k-IsBlock float rng fuel system clock false fd size o_direct duration_ms n uniform
      room small t enough =
    (no_result float, [], refl, tt)
measure_random4k-IsBlock {F} float {G} rng fuel system clock true fd size o_direct duration_ms n
      uniform room small t enough =
    let start : Random4kState G = record { rng = rng.seeded 0xd15c; ops = 0; calls = [] } in
    let some_block : (size / block_align == 0) ≡ false = ground arith in
    let (s, j, ran, blocks) =
      break_loop-keeps clock (clock 0) (ms_to_ns duration_ms)
        (random4k_pass rng system fd (size / block_align) o_direct)
        (λ s. All (IsBlock size) s.calls)
        (random4k_pass-IsBlock rng uniform system fd size o_direct room small) n 1 fuel start t
        enough tt in
    (
      random4k_result float s.ops (sub_u64 (clock j) (clock 0)),
      s.calls,
      rw (measure_random4k, some_block, ran) refl,
      blocks,
    )
