-- ===== src/Disk.antt =====
-- tools/roofline/src/disk_bench.cpp: the two measurements. The system is a parameter that answers each
-- call from the calls before it, the last of them first; the code keeps no more of it than the calls.
pub mod Sequential
pub mod Random4k
pub mod Sizes
pub mod Bench
use llm_river.Base.Int.{ℤ, pos, pos_part, ltb_ℤ}
use llm_river.Base.{
  ℕ, zero, suc, ◌+◌, ◌-◌, ◌*◌, ◌/◌, ◌%◌, ◌^◌, Bool, true, false, not, ◌&&◌, Option, none, some,
  List, [], ◌∷◌, ltb, ◌==◌, if◌then◌else◌, Bytes,
}
use llm_river.Clock.{Clock, sub_u64, ms_to_ns, break_loop}
use llm_river.Float.{Float}
use llm_river.Random.{Rng}

-- `kChunkBytes` and `kBlockAlign`
abbrev pub chunk_bytes : ℕ
chunk_bytes = 4 * 1024 * 1024

abbrev pub block_align : ℕ
block_align = 4096

unfoldable pub round_up : ℕ → ℕ → ℕ
round_up v mult = (v + mult - 1) % 2 ^ 64 / mult * mult % 2 ^ 64

-- `stat`; `open` for writing, with `O_DIRECT` and for reading; `write(fd, buf, count)`; `close`;
-- `pread(fd, buf, count, offset)`; and `posix_fadvise(fd, offset, len, POSIX_FADV_DONTNEED)`.
pub data Call : Type 0 where
  stat open_write open_direct open_read : Bytes → Call
  write : ℤ → ℕ → Call
  close : ℤ → Call
  pread : ℤ → ℕ → ℕ → Call
  fadvise : ℤ → ℕ → ℕ → Call

-- What a call returns, which for `stat` is the size, or -1.
abbrev pub System : Type 0
System = List Call → Call → ℤ

pub record Reading : Type 0 where
  pub offset : ℕ
  pub total : ℕ
  pub calls : List Call

-- `if (offset + kChunkBytes > file_size) offset = 0;`
unfoldable pub next_offset : ℕ → ℕ → ℕ
next_offset file_size offset = if ltb file_size ((offset + chunk_bytes) % 2 ^ 64) then 0 else offset

module _ (system : System) (fd : ℤ) (file_size : ℕ) (o_direct : Bool) where
  -- The body of the loop of `measure_sequential`; false is its `break`.
  unfoldable pub sequential_pass : Reading → Bool × Reading
  unfolding next_offset
  sequential_pass s =
      let offset = next_offset file_size s.offset in
      let call = pread fd chunk_bytes offset in
      let n = system s.calls call in
      let calls = call ∷ s.calls in
      if ltb_ℤ (pos 0) n
      then (
        true,
        record {
          offset = (offset + pos_part n) % 2 ^ 64;
          total = (s.total + pos_part n) % 2 ^ 64;
          calls = if o_direct then calls else fadvise fd offset (pos_part n) ∷ calls;
        },
      )
      else (false, record { offset = offset; total = s.total; calls = calls })

pub record Random4kState (G : Type 0) : Type 0 where
  pub rng : G
  pub ops : ℕ
  pub calls : List Call

module _ {G : Type 0} (rng : Rng G) (system : System) (fd : ℤ) (max_block : ℕ)
    (o_direct : Bool) where
  -- The body of the loop of `measure_random4k`; false is its `break`.
  unfoldable pub random4k_pass : Random4kState G → Bool × Random4kState G
  random4k_pass s =
      let (block, g) = rng.draw 0 (max_block - 1) s.rng in
      let call = pread fd block_align (block * block_align % 2 ^ 64) in
      let n = system s.calls call in
      let calls = call ∷ s.calls in
      let ops = (s.ops + 1) % 2 ^ 64 in
      if ltb_ℤ (pos 0) n
      then (
        true,
        record {
          rng = g;
          ops = ops;
          calls = if not o_direct && ops % 256 == 0 then fadvise fd 0 0 ∷ calls else calls;
        },
      )
      else (false, record { rng = g; ops = s.ops; calls = calls })

pub record Random4kResult {ℓ} (F : Type ℓ) : Type ℓ where
  pub iops : F
  pub bandwidth_mbs : F
  pub avg_latency_us : F

module _ {ℓ} {F : Type ℓ} (float : Float F) where
  open float use {of_ℕ, mul, div, lt}

  -- The bandwidth of `total` bytes in `elapsed` ns.
  unfoldable pub sequential_result : ℕ → ℕ → F
  sequential_result total elapsed =
      let giga = of_ℕ 1_000_000_000 in
      let seconds = div (of_ℕ elapsed) giga in
      if lt (of_ℕ 0) seconds then div (div (of_ℕ total) giga) seconds else of_ℕ 0

  -- The result, and the calls made. `has_room` says whether the allocation succeeds. Reading 0 of the
  -- clock is the start; the reading after the loop is the end.
  unfoldable pub measure_sequential :
      ℕ → System → Clock → Bool → ℤ → ℕ → Bool → ℤ → List Call → Option (F × List Call)
  unfolding break_loop sequential_pass sequential_result ms_to_ns sub_u64
  measure_sequential fuel system clock has_room fd file_size o_direct duration_ms calls =
      let ran =
        break_loop clock (clock 0) (ms_to_ns duration_ms)
          (sequential_pass system fd file_size o_direct) fuel 1
          (record { offset = 0; total = 0; calls = calls }) in
      elim has_room [
        | false ↦ some (of_ℕ 0, calls)
        | true ↦ elim ran [
          | none ↦ none
          | some (s, i) ↦ some (sequential_result s.total (sub_u64 (clock i) (clock 0)), s.calls)
        ]
      ]

  abbrev pub no_result : Random4kResult F
  no_result = record { iops = of_ℕ 0; bandwidth_mbs = of_ℕ 0; avg_latency_us = of_ℕ 0 }

  -- The result of `ops` reads in `elapsed` ns.
  unfoldable pub random4k_result : ℕ → ℕ → Random4kResult F
  random4k_result ops elapsed =
      let seconds = div (of_ℕ elapsed) (of_ℕ 1_000_000_000) in
      if lt (of_ℕ 0) seconds && ltb 0 ops
      then record {
        iops = div (of_ℕ ops) seconds;
        bandwidth_mbs = div (div (mul (of_ℕ ops) (of_ℕ block_align)) (of_ℕ (1024 * 1024))) seconds;
        avg_latency_us = div (mul seconds (of_ℕ 1_000_000)) (of_ℕ ops);
      }
      else no_result

  unfoldable pub measure_random4k :
      {G : Type 0}
      → Rng G
      → ℕ
      → System
      → Clock
      → Bool
      → ℤ
      → ℕ
      → Bool
      → ℤ
      → List Call
      → Option (Random4kResult F × List Call)
  unfolding break_loop random4k_pass random4k_result ms_to_ns sub_u64
  measure_random4k rng fuel system clock has_room fd file_size o_direct duration_ms calls =
      let max_block = file_size / block_align in
      let ran =
        break_loop clock (clock 0) (ms_to_ns duration_ms)
          (random4k_pass rng system fd max_block o_direct) fuel 1
          (record { rng = rng.seeded 0xd15c; ops = 0; calls = calls }) in
      elim (has_room && not (max_block == 0)) [
        | false ↦ some (no_result, calls)
        | true ↦ elim ran [
          | none ↦ none
          | some (s, i) ↦ some (random4k_result s.ops (sub_u64 (clock i) (clock 0)), s.calls)
        ]
      ]
