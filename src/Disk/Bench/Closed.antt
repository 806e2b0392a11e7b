-- ===== src/Disk/Bench/Closed.antt =====
-- Every descriptor that the bench gets is closed, on every path.
use llm_river.Base.Int.{ℤ, pos, pos_part, ltb_ℤ}
use llm_river.Base.{
  ◌/◌, ℕ, ◌+◌, ◌-◌, ◌*◌, ◌^◌, ◌%◌, ◌≤◌, ◌<◌, Bool, true, false, not, ◌&&◌, some, List, [], ◌∷◌, ◌≡◌,
  refl, ap, ◌∙◌, arith, Bool-cases, inl, inr, if◌then◌else◌, ◌==◌, Bytes,
}
use llm_river.Clock.{Clock, TimeIsUp, ms_to_ns, sub_u64, break_loop-keeps}
use llm_river.Disk.Bench.{
  try_open_direct, is_negative, open_file, Outside, measure_file, run_disk_bench, measured_result,
  failed_result,
}
use llm_river.Disk.{
  System, Call, open_direct, open_read, close, pread, fadvise, chunk_bytes, block_align, round_up,
  Reading, sequential_pass, next_offset, measure_sequential, sequential_result, Random4kState,
  Random4kResult, random4k_pass, random4k_result, no_result, measure_random4k,
}
use llm_river.Float.{Float}
use llm_river.Random.{Rng}
use llm_river.Report.Structs.{DiskBenchResult}
use llm_river.Disk.Bench.Held.{held, gained, without, without_first, FitsLong, prepare_file-held}
use llm_river.Disk.Sizes.{round_up-chunk_bytes}

module _ (system : System) where
  try_open_direct-held :
      (path : Bytes) (calls : List Call)
      → held system (try_open_direct system path calls).1
        ≡ gained (try_open_direct system path calls).0 (held system calls)
  unfolding try_open_direct
  try_open_direct-held path calls =
      let fd = system calls (open_direct path) in
      let opened = open_direct path ∷ calls in
      elim (Bool-cases (is_negative fd)) [
        | inl e ↦ rw e (rw e refl)
        | inr e ↦ elim (Bool-cases (is_negative (system opened (pread fd block_align 0)))) [
          | inl e' ↦ rw (e, e') (kept e)
          | inr e' ↦ rw (e, e') refl
        ]
      ]
    where
      kept :
          is_negative (system calls (open_direct path)) ≡ false
          → without (system calls (open_direct path)) (held system (open_direct path ∷ calls))
            ≡ held system calls
      kept e = rw e (without_first (system calls (open_direct path)) (held system calls))

  open_file-held :
      (path : Bytes) (calls : List Call)
      → held system (open_file system path calls).1.1
        ≡ gained (open_file system path calls).0 (held system calls)
  unfolding open_file
  open_file-held path calls =
      let tried = try_open_direct system path calls in
      let same = try_open_direct-held path calls in
      elim (Bool-cases (is_negative tried.0)) [
        | inl e ↦ rw e (ap (gained (system tried.1 (open_read path))) (same ∙ lost e))
        | inr e ↦ rw e same
      ]
    where
      lost :
          is_negative (try_open_direct system path calls).0 ≡ true
          → gained (try_open_direct system path calls).0 (held system calls) ≡ held system calls
      lost e = rw e refl

  sequential_pass-held :
      (fd : ℤ) (size : ℕ) (direct : Bool) (s : Reading)
      → held system (sequential_pass system fd size direct s).1.calls ≡ held system s.calls
  unfolding sequential_pass
  sequential_pass-held fd size direct s =
      let offset = next_offset size s.offset in
      let call = pread fd chunk_bytes offset in
      elim (Bool-cases (ltb_ℤ (pos 0) (system s.calls call))) [
        | inr e ↦ rw e refl
        | inl e ↦ rw e (advised direct offset (pos_part (system s.calls call)))
      ]
    where
      advised :
          (d : Bool) (offset len : ℕ)
          → held system (
              if d
              then pread fd chunk_bytes offset ∷ s.calls
              else fadvise fd offset len ∷ pread fd chunk_bytes offset ∷ s.calls)
            ≡ held system s.calls
      advised true offset len = refl
      advised false offset len = refl

  random4k_pass-held :
      {G : Type 0} (rng : Rng G) (fd : ℤ) (max_block : ℕ) (direct : Bool) (s : Random4kState G)
      → held system (random4k_pass rng system fd max_block direct s).1.calls ≡ held system s.calls
  unfolding random4k_pass
  random4k_pass-held rng fd max_block direct s =
      let block : ℕ = (rng.draw 0 (max_block - 1) s.rng).0 in
      let call = pread fd block_align (block * block_align % 2 ^ 64) in
      elim (Bool-cases (ltb_ℤ (pos 0) (system s.calls call))) [
        | inr e ↦ rw e refl
        | inl e ↦ rw e (advised (not direct && (s.ops + 1) % 2 ^ 64 % 256 == 0) (call ∷ s.calls))
      ]
    where
      advised :
          (d : Bool) (calls : List Call)
          → held system (if d then fadvise fd 0 0 ∷ calls else calls) ≡ held system calls
      advised true calls = refl
      advised false calls = refl

module _ {ℓ} {F : Type ℓ} (float : Float F) (system : System) (fuel : ℕ) (duration_ms : ℤ) where
  measure_sequential-held :
      (clock : Clock) (room : Bool) (fd : ℤ) (size : ℕ) (direct : Bool) (n : ℕ) (calls : List Call)
      → TimeIsUp clock (clock 0) (ms_to_ns duration_ms) 1 n
      → n < fuel
      → (gbs : F) × (calls' : List Call) × (measure_sequential float fuel system clock room fd size
            direct duration_ms calls
          ≡ some (gbs, calls'))
        × (held system calls' ≡ held system calls)
  unfolding measure_sequential
  measure_sequential-held clock false fd size direct n calls t enough =
      (float.of_ℕ 0, calls, refl, refl)
  measure_sequential-held clock true fd size direct n calls t enough =
      let start : Reading = record { offset = 0; total = 0; calls = calls } in
      let (s, j, ran, same) =
        break_loop-keeps clock (clock 0) (ms_to_ns duration_ms)
          (sequential_pass system fd size direct) (λ s. held system s.calls ≡ held system calls)
          (λ s h. sequential_pass-held system fd size direct s ∙ h) n 1 fuel start t enough refl in
      (
        sequential_result float s.total (sub_u64 (clock j) (clock 0)),
        s.calls,
        rw (measure_sequential, ran) refl,
        same,
      )

  measure_random4k-held :
      {G : Type 0} (rng : Rng G) (clock : Clock) (room : Bool) (fd : ℤ) (size : ℕ) (direct : Bool)
      (n : ℕ) (calls : List Call)
      → TimeIsUp clock (clock 0) (ms_to_ns duration_ms) 1 n
      → n < fuel
      → (r : Random4kResult F) × (calls' : List Call) × (measure_random4k float rng fuel system
            clock room fd size direct duration_ms calls
          ≡ some (r, calls'))
        × (held system calls' ≡ held system calls)
  unfolding measure_random4k
  measure_random4k-held {G} rng clock room fd size direct n calls t enough =
      elim (Bool-cases (room && not (size / block_align == 0))) [
        | inr e ↦ (no_result float, calls, rw (measure_random4k, e) refl, refl)
        | inl e ↦
            let start : Random4kState G = record {
              rng = rng.seeded 0xd15c;
              ops = 0;
              calls = calls;
            } in
            let (s, j, ran, same) =
              break_loop-keeps clock (clock 0) (ms_to_ns duration_ms)
                (random4k_pass rng system fd (size / block_align) direct)
                (λ s. held system s.calls ≡ held system calls)
                (λ s h. random4k_pass-held system rng fd (size / block_align) direct s ∙ h) n 1 fuel
                start t enough refl in
            (
              random4k_result float s.ops (sub_u64 (clock j) (clock 0)),
              s.calls,
              rw (measure_random4k, e, ran) refl,
              same,
            )
      ]

-- With the time of both measurements up, and fuel above the readings and the size, the disk bench ends,
-- whatever its calls return, and then no descriptor that it opened is left open: not where the file
-- cannot be made, `O_DIRECT` is refused, the probe fails, or the file cannot be opened.
pub run_disk_bench-held {ℓ} :
    {F : Type ℓ} (float : Float F) {G : Type 0} (rng : Rng G) (fuel : ℕ) (system : System)
    (outside : Outside) (path : Bytes) (file_size_bytes : ℕ) (duration_ms : ℤ) (m n : ℕ)
    → FitsLong system
    → file_size_bytes + chunk_bytes ≤ 2 ^ 63
    → file_size_bytes + chunk_bytes ≤ fuel
    → TimeIsUp outside.stream_clock (outside.stream_clock 0) (ms_to_ns duration_ms) 1 m
    → m < fuel
    → TimeIsUp outside.random_clock (outside.random_clock 0) (ms_to_ns duration_ms) 1 n
    → n < fuel
    → (r : DiskBenchResult F) × (calls : List Call) × (run_disk_bench float rng fuel system outside
          path file_size_bytes duration_ms []
        ≡ some (r, calls))
      × (held system calls ≡ [])
unfolding run_disk_bench measure_file
run_disk_bench-held float rng fuel system outside path bytes duration_ms m n long small enough up lt
      up' lt' =
    let size = round_up bytes chunk_bytes in
    let (_, _, _, below) = round_up-chunk_bytes bytes (omega arith) in
    let (prepared, made, held₀) =
      prepare_file-held system long fuel outside.room_to_write path size [] (omega arith)
        (omega arith) in
    let file = open_file system path prepared in
    let held₁ : held system file.1.1 ≡ gained file.0 [] =
      open_file-held system path prepared ∙ ap (gained file.0) held₀ in
    elim (Bool-cases (is_negative file.0)) [
      | inl e ↦ (
        failed_result float rng fuel system outside path size,
        file.1.1,
        rw (made, e) refl,
        held₁ ∙ rw e refl,
      )
      | inr e ↦
          let (gbs, calls₂, ran₂, held₂) =
            measure_sequential-held float system fuel duration_ms outside.stream_clock
              outside.room_to_stream file.0 size file.1.0 m file.1.1 up lt in
          let (r, calls₃, ran₃, held₃) =
            measure_random4k-held float system fuel duration_ms rng outside.random_clock
              outside.room_for_block file.0 size file.1.0 n calls₂ up' lt' in
          (
            measured_result float rng fuel system outside path size file.1.0 gbs r,
            close file.0 ∷ calls₃,
            rw (made, e, ran₂, ran₃) refl,
            ap (without file.0) (held₃ ∙ held₂ ∙ held₁) ∙ closed file.0 e,
          )
    ]
  where
    closed : (fd : ℤ) → is_negative fd ≡ false → without fd (gained fd []) ≡ []
    closed fd e = rw e (without_first fd [])
