-- ===== src/Disk/Bench.antt =====
-- tools/roofline/src/disk_bench.cpp: the file, and the bench.
pub mod Held
pub mod Closed
use llm_river.Base.Int.{ℤ, pos, negsuc, pos_part, ltb_ℤ}
use llm_river.Base.{
  ℕ, zero, suc, ◌+◌, ◌%◌, ◌^◌, Bool, true, false, not, ◌&&◌, Option, none, some, List, [], ◌∷◌,
  ◌++◌, ltb, ◌==◌, if◌then◌else◌, Bytes, codes, ◌>>=◌,
}
use llm_river.Clock.{Clock}
use llm_river.Disk.{
  System, Call, stat, open_write, open_direct, open_read, write, close, pread, chunk_bytes,
  block_align, round_up, measure_sequential, measure_random4k, Random4kResult,
}
use llm_river.Float.{Float}
use llm_river.Random.{Rng}
use llm_river.Report.Structs.{DiskBenchResult}

abbrev is_negative : ℤ → Bool
is_negative v = ltb_ℤ v (pos 0)

-- `while (written < size_bytes) …`, and the calls then made
unfoldable pub write_loop : ℕ → System → ℤ → ℕ → ℕ → List Call → Option (List Call)
write_loop zero system fd size_bytes written calls = none
write_loop (suc f) system fd size_bytes written calls =
    let n = system calls (write fd chunk_bytes) in
    let calls' = write fd chunk_bytes ∷ calls in
    let rest = write_loop f system fd size_bytes ((written + pos_part n) % 2 ^ 64) calls' in
    if ltb written size_bytes then (if ltb_ℤ (pos 0) n then rest else some calls') else some calls

unfoldable pub create_file : ℕ → System → Bool → Bytes → ℕ → List Call → Option (List Call)
unfolding write_loop
create_file fuel system has_room path size_bytes calls =
    let fd = system calls (open_write path) in
    let opened = open_write path ∷ calls in
    let filled = write_loop fuel system fd size_bytes 0 opened in
    let written = if has_room then filled else some opened in
    if is_negative fd then some opened else written >>= λ c. some (close fd ∷ c)

-- The descriptor, or -1.
unfoldable pub try_open_direct : System → Bytes → List Call → ℤ × List Call
try_open_direct system path calls =
    let fd = system calls (open_direct path) in
    let opened = open_direct path ∷ calls in
    let probe = pread fd block_align 0 in
    if is_negative fd
    then (negsuc 0, opened)
    else if is_negative (system opened probe)
    then (negsuc 0, close fd ∷ probe ∷ opened)
    else (fd, probe ∷ opened)

-- `file_has_size`, from what `stat` returns.
abbrev pub is_size : ℤ → ℕ → Bool
is_size (pos n) want = n == want
is_size (negsuc n) want = false

unfoldable pub prepare_file : ℕ → System → Bool → Bytes → ℕ → List Call → Option (List Call)
unfolding create_file
prepare_file fuel system has_room path size calls =
    let found = system calls (stat path) in
    let calls' = stat path ∷ calls in
    if is_size found size then some calls' else create_file fuel system has_room path size calls'

-- The descriptor that is read from, whether it is direct, and the calls.
unfoldable pub open_file : System → Bytes → List Call → ℤ × (Bool × List Call)
unfolding try_open_direct
open_file system path calls =
    let (fd, tried) = try_open_direct system path calls in
    if is_negative fd
    then (system tried (open_read path), (false, open_read path ∷ tried))
    else (fd, (true, tried))

abbrev pub fallback_note : Bytes
fallback_note =
    codes "O_DIRECT unavailable on this filesystem; fell back to buffered "
    ++ codes "reads with posix_fadvise(DONTNEED). Numbers include some page "
    ++ codes "cache effect -- re-run on a real block device (not overlayfs/tmpfs) "
    ++ codes "for trustworthy results."

-- What the bench takes from outside, besides the system: whether each allocation succeeds, the clocks
-- of the two measurements, and `std::strerror(errno)`.
pub record Outside : Type 0 where
  pub room_to_write : Bool
  pub room_to_stream : Bool
  pub room_for_block : Bool
  pub stream_clock : Clock
  pub random_clock : Clock
  pub error_text : Bytes

module _ {ℓ} {F : Type ℓ} (float : Float F) {G : Type 0} (rng : Rng G) (fuel : ℕ) (system : System)
    (outside : Outside) where
  open float use {of_ℕ}

  abbrev pub empty_result : Bytes → ℕ → DiskBenchResult F
  empty_result path size = record {
    file_path = path;
    file_size_bytes = size;
    used_o_direct = false;
    note = [];
    sequential_read_gbs = of_ℕ 0;
    random4k_iops = of_ℕ 0;
    random4k_bandwidth_mbs = of_ℕ 0;
    random4k_avg_latency_us = of_ℕ 0;
  }

  abbrev pub measured_result : Bytes → ℕ → Bool → F → Random4kResult F → DiskBenchResult F
  measured_result path size direct gbs r = record (empty_result path size) {
    used_o_direct = direct;
    note = if direct then [] else fallback_note;
    sequential_read_gbs = gbs;
    random4k_iops = r.iops;
    random4k_bandwidth_mbs = r.bandwidth_mbs;
    random4k_avg_latency_us = r.avg_latency_us;
  }

  abbrev pub failed_result : Bytes → ℕ → DiskBenchResult F
  failed_result path size = record (empty_result path size) {
    note = codes "could not open " ++ path ++ codes ": " ++ outside.error_text;
  }

  -- With the descriptor open, up to its `close`.
  unfoldable pub measure_file :
      Bytes → ℕ → ℤ → Bool → ℤ → List Call → Option (DiskBenchResult F × List Call)
  unfolding measure_sequential measure_random4k
  measure_file path size fd direct duration_ms calls = do
    s ←
        measure_sequential float fuel system outside.stream_clock outside.room_to_stream fd size
          direct duration_ms calls
    r ←
        measure_random4k float rng fuel system outside.random_clock outside.room_for_block fd size
          direct duration_ms s.1
    some (measured_result path size direct s.0 r.0, close fd ∷ r.1)

  unfoldable pub run_disk_bench : Bytes → ℕ → ℤ → List Call → Option (DiskBenchResult F × List Call)
  unfolding round_up prepare_file open_file measure_file
  run_disk_bench path file_size_bytes duration_ms calls = do
    let size = round_up file_size_bytes chunk_bytes
    prepared ← prepare_file fuel system outside.room_to_write path size calls
    let (fd, (direct, opened)) = open_file system path prepared
    let measured = measure_file path size fd direct duration_ms opened
    if is_negative fd then some (failed_result path size, opened) else measured
