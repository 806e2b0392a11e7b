-- ===== src/Tests/Storage.antt =====
-- disk_bench.cpp on a file of two chunks that is always read in full.
use llm_river.Base.Int.{pos, negsuc}
use llm_river.Base.{ℕ, ◌≡◌, ◌%◌, ◌≤◌, ◌<◌, refl, true, false, some, List, [], arith, All, codes}
use llm_river.Disk.Random4k.{IsBlock, measure_random4k-IsBlock}
use llm_river.Disk.Sequential.{InFile, ReadsAtMost, measure_sequential-InFile}
use llm_river.Disk.Bench.Closed.{run_disk_bench-held}
use llm_river.Disk.Bench.Held.{held, FitsLong}
use llm_river.Disk.Bench.{Outside, run_disk_bench}
use llm_river.Disk.Sizes.{round_up-chunk_bytes}
use llm_river.Report.Structs.{DiskBenchResult}
use llm_river.Disk.{
  System, Call, pread, write, open_read, open_write, open_direct, Random4kResult,
  measure_sequential, measure_random4k, chunk_bytes, round_up, block_align,
}
use llm_river.Tests.Given.{counting, counting-IsUniform, thousandths, ticking, ticking-TimeIsUp}

abbrev full_reads : System
full_reads h (pread fd count offset) = pos count
full_reads h (open_read path) = pos 7
full_reads h (open_write path) = pos 5
full_reads h (open_direct path) = negsuc 0
full_reads h (write fd count) = pos count
full_reads h _ = pos 0

full_reads-ReadsAtMost : ReadsAtMost full_reads
full_reads-ReadsAtMost = record { at_most = λ h fd count offset. omega arith }

two_chunks : round_up 4_194_305 chunk_bytes ≡ 8_388_608
unfolding round_up
two_chunks = refl

measure_sequential-InFile_example :
    (gbs : ℕ) × (calls : List Call) × (measure_sequential thousandths 4 full_reads ticking true
        (pos 3)
        8_388_608
        false
        (pos 1)
        []
      ≡ some (gbs, calls))
    × All (InFile 8_388_608) calls
measure_sequential-InFile_example =
    measure_sequential-InFile thousandths 4 full_reads ticking true (pos 3) 8_388_608 false (pos 1)
      1 full_reads-ReadsAtMost (omega arith) (omega arith) ticking-TimeIsUp (omega arith)

measure_random4k-IsBlock_example :
    (r : Random4kResult ℕ) × (calls : List Call) × (measure_random4k thousandths counting 4
        full_reads ticking true
        (pos 3)
        8_388_608
        true
        (pos 1)
        []
      ≡ some (r, calls))
    × All (IsBlock 8_388_608) calls
measure_random4k-IsBlock_example =
    measure_random4k-IsBlock thousandths counting 4 full_reads ticking true (pos 3) 8_388_608 true
      (pos 1) 1 counting-IsUniform (omega arith) (omega arith) ticking-TimeIsUp (omega arith)

round_up-chunk_bytes_example :
    (round_up 4_194_305 chunk_bytes % chunk_bytes ≡ 0)
    × (round_up 4_194_305 chunk_bytes % block_align ≡ 0)
    × (4_194_305 ≤ round_up 4_194_305 chunk_bytes)
    × (round_up 4_194_305 chunk_bytes < 8_388_609)
round_up-chunk_bytes_example = round_up-chunk_bytes 4_194_305 (omega arith)

-- A system in which every call returns 9: the probe, the reads and the writes are short.
abbrev pub nines : System
nines h c = pos 9

pub nines-FitsLong : FitsLong nines
nines-FitsLong = record { fits = λ h c. omega arith }

abbrev pub outside : Outside
outside = record {
  room_to_write = true;
  room_to_stream = true;
  room_for_block = true;
  stream_clock = ticking;
  random_clock = ticking;
  error_text = codes "none";
}

run_disk_bench-held_example :
    (r : DiskBenchResult ℕ) × (calls : List Call) × (run_disk_bench thousandths counting 5_000_000
        nines outside
        (codes "/tmp/f")
        4096
        (pos 1)
        []
      ≡ some (r, calls))
    × (held nines calls ≡ [])
run_disk_bench-held_example =
    run_disk_bench-held thousandths counting 5_000_000 nines outside (codes "/tmp/f") 4096 (pos 1) 1
      1 nines-FitsLong (omega arith) (omega arith) ticking-TimeIsUp (omega arith) ticking-TimeIsUp
      (omega arith)
