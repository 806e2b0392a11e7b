-- ===== src/Disk/Sizes.antt =====
-- The size of the file of disk_bench.cpp.
use llm_river.Base.{ℕ, ◌+◌, ◌%◌, ◌^◌, ◌≤◌, ◌<◌, ◌≡◌, arith}
use llm_river.Disk.{round_up, chunk_bytes, block_align}

-- A size rounded up to whole chunks is the least multiple of a chunk that is not below it, unless that
-- leaves 64 bits. It is made of whole blocks too.
pub round_up-chunk_bytes :
    (v : ℕ)
    → v + chunk_bytes ≤ 2 ^ 64
    → (round_up v chunk_bytes % chunk_bytes ≡ 0)
      × (round_up v chunk_bytes % block_align ≡ 0)
      × (v ≤ round_up v chunk_bytes)
      × (round_up v chunk_bytes < v + chunk_bytes)
unfolding round_up
round_up-chunk_bytes v fits = (omega arith, omega arith, omega arith, omega arith)
