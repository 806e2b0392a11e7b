-- ===== src/Latency/Bench.antt =====
-- `run_latency_bench` of tools/roofline/src/latency_bench.cpp.
use mathlib.Core.List.{map}
use llm_river.Base.Counting.{OnceBelow}
use llm_river.Base.Int.{ℤ, pos, leb_ℤ}
use llm_river.Base.Run.{done}
use llm_river.Base.{
  ℕ, suc, ◌+◌, ◌-◌, ◌*◌, ◌/◌, ◌%◌, ◌^◌, ◌≤◌, ◌<◌, true, false, not, ◌&&◌, ◌||◌, Option, some, List,
  [], ◌∷◌, ◌≡◌, refl, ap, arith, ◌⊎◌, inl, inr, length, Ascends, ltb, leb, if◌then◌else◌,
  Bool-cases,
}
use llm_river.Chase.Cycle.{orbit, after}
use llm_river.Chase.Wire.{wire_single_cycle-cycle}
use llm_river.Chase.{next}
use llm_river.Clock.{Clock, TimeIsUp, sub_u64, ms_to_ns}
use llm_river.Float.{Float}
use llm_river.Latency.Measure.{measure_dependent_latency_lem, measure_mlp_bandwidth_lem}
use llm_river.Latency.{
  node_bytes, chase_count, build_chase_array, bandwidth_of, mlp_sweep, stream_candidates,
  implied_outstanding, run_latency_bench,
}
use llm_river.Plateau.{IsPlateau, Grows, back, plateau, plateau_lem, Positive}
use llm_river.Random.{Rng, IsUniform}
use llm_river.Report.Structs.{MlpPoint, LatencyBenchResult}

-- The array is one cycle of all its nodes, whatever the footprint, up to 256 GB: from any node the
-- chase visits each node once and is back. It has two nodes at least.
pub build_chase_array-cycle {ℓ} :
    {G : Type ℓ} (rng : Rng G)
    → IsUniform rng
    → (allocate : ℕ → Option (List ℕ)) (footprint_bytes : ℕ) (fresh : List ℕ) (s : ℕ)
    → footprint_bytes ≤ 2 ^ 38
    → allocate (chase_count footprint_bytes) ≡ some fresh
    → length fresh ≡ chase_count footprint_bytes
    → s < chase_count footprint_bytes
    → (arr : List ℕ) × (build_chase_array rng allocate footprint_bytes ≡ some arr)
      × (2 ≤ chase_count footprint_bytes)
      × OnceBelow (chase_count footprint_bytes) (orbit (next arr) s (chase_count footprint_bytes))
      × (after (next arr) s (chase_count footprint_bytes) ≡ s)
unfolding build_chase_array
build_chase_array-cycle rng uniform allocate bytes fresh s small room len lt =
    let (two, fits) = chase_count_bounds in
    let (arr, e, _, visits, ends) =
      wire_single_cycle-cycle rng uniform fresh (chase_count bytes) 0x5eed5eed s fits (omega arith)
        lt in
    (arr, rw (room, build_chase_array) e, two, visits, ends)
  where
    chase_count_bounds : (2 ≤ chase_count bytes) × (chase_count bytes ≤ 2 ^ 32)
    chase_count_bounds = unfold chase_count in ground arith

-- The stream counts of a sweep: the candidates up to the limit and the number of nodes.
abbrev pub streams_allowed : ℤ → ℕ → List ℕ → List ℕ
streams_allowed max_streams count [] = []
streams_allowed max_streams count (k ∷ ks) =
    if leb_ℤ (pos k) max_streams && leb k count
    then k ∷ streams_allowed max_streams count ks
    else streams_allowed max_streams count ks

none_allowed :
    (max_streams : ℤ) (count k : ℕ) (ks : List ℕ)
    → Ascends k ks
    → (leb_ℤ (pos k) max_streams && leb k count) ≡ false
    → streams_allowed max_streams count ks ≡ []
none_allowed max_streams count k [] a e = refl
none_allowed max_streams count k (j ∷ ks) (lt, a) e =
    let stays : (leb_ℤ (pos j) max_streams && leb j count) ≡ false = ground arith in
    rw stays (none_allowed max_streams count j ks a stays)

module _ {ℓ} {F : Type ℓ} (float : Float F) (fuel : ℕ) (clock : ℕ → Clock) (arr : List ℕ)
    (count : ℕ) (max_streams duration_ms : ℤ) (rounds : ℕ → ℕ)
    (ends : (k : ℕ) → TimeIsUp (clock k) (clock k 0) (ms_to_ns duration_ms) 1 (rounds k))
    (enough : (k : ℕ) → rounds k < fuel) where
  -- The sweep stops at the first candidate that is not allowed, which is as good as leaving out all
  -- that are not.
  mlp_sweep_done :
      (lo : ℕ) (ks : List ℕ)
      → Ascends lo ks
      → (points : List (MlpPoint F)) × (mlp_sweep float fuel clock arr count max_streams duration_ms
            ks
          ≡ some points)
        × (map (λ p. p.streams) points ≡ map pos (streams_allowed max_streams count ks))
        × Positive (λ (p : MlpPoint F). p.streams) points
  unfolding mlp_sweep
  mlp_sweep_done lo [] a = ([], refl, refl, tt)
  mlp_sweep_done lo (k ∷ ks) (lt, a) =
      elim (Bool-cases (leb_ℤ (pos k) max_streams && leb k count)) [
        | inl e ↦
            let go : (not (leb_ℤ (pos k) max_streams) || ltb count k) ≡ false = ground arith in
            let (points, ran, streams, positive) = mlp_sweep_done k ks a in
            let (measured, _) =
              measure_mlp_bandwidth_lem float fuel (clock k) arr count k duration_ms (rounds k)
                (ends k) (enough k) in
            let gbs =
              bandwidth_of float (16 * k * suc (rounds k) % 2 ^ 64)
                (sub_u64 (clock k (rounds k + 2)) (clock k 0)) in
            let here : pos k ≡ pos (suc (k - 1)) = ap pos (omega arith) in
            (
              record { streams = pos k; bandwidth_gbs = gbs } ∷ points,
              rw (go, measured, ran) refl,
              rw e (ap (◌∷◌ (pos k)) streams),
              ((k - 1, here), positive),
            )
        | inr e ↦
            let stop : (not (leb_ℤ (pos k) max_streams) || ltb count k) ≡ true = ground arith in
            ([], rw stop refl, rw (e, none_allowed max_streams count k ks a e) refl, tt)
      ]

-- What a finished bench says: the footprint in whole nodes; the latency per hop; a point for each
-- allowed number of streams; the plateau at the first point whose bandwidth is positive and whose next
-- has less than 5% more, or at the last if there is none, and none for an empty sweep; and Little's law on those two, as the
-- plateau's bandwidth times the latency over nodes of 64 bytes, or 0.0 if the latency is not positive.
pub record IsMeasured {ℓ} {F : Type ℓ} (float : Float F) (count : ℕ) (max_streams : ℤ) (latency : F)
    (r : LatencyBenchResult F) : Type ℓ where
  pub footprint : r.footprint_bytes ≡ count * 64 % 2 ^ 64
  pub latency_of : r.dependent_chain_latency_ns ≡ latency
  pub streams :
      map (λ p. p.streams) r.mlp_scaling
      ≡ map pos (streams_allowed max_streams count (1 ∷ 2 ∷ 4 ∷ 8 ∷ 16 ∷ 32 ∷ 64 ∷ 128 ∷ []))
  pub plateau_at :
      ((r.mlp_scaling ≡ [])
        × (r.mlp_plateau_streams ≡ pos 0)
        × (r.mlp_plateau_bandwidth_gbs ≡ float.of_ℕ 0))
      ⊎ ((p : MlpPoint F) × (r.mlp_plateau_streams ≡ p.streams)
          × (r.mlp_plateau_bandwidth_gbs ≡ p.bandwidth_gbs)
          × (IsPlateau float (λ q. q.bandwidth_gbs) r.mlp_scaling p
              ⊎ (Grows float (λ q. q.bandwidth_gbs) r.mlp_scaling × (back r.mlp_scaling ≡ some p))))
  pub outstanding : r.implied_outstanding_requests ≡ (
      if float.lt (float.of_ℕ 0) latency
      then float.div (float.mul r.mlp_plateau_bandwidth_gbs latency) (float.of_ℕ 64)
      else float.of_ℕ 0)

plateau_cases {ℓ} :
    {F : Type ℓ} (float : Float F) (points : List (MlpPoint F))
    → Positive (λ (p : MlpPoint F). p.streams) points
    → let found = plateau float (λ (p : MlpPoint F). p.bandwidth_gbs) (λ p. p.streams) points in
      ((points ≡ []) × (found.0 ≡ pos 0) × (found.1 ≡ float.of_ℕ 0))
      ⊎ ((p : MlpPoint F) × (found.0 ≡ p.streams)
          × (found.1 ≡ p.bandwidth_gbs)
          × (IsPlateau float (λ q. q.bandwidth_gbs) points p
              ⊎ (Grows float (λ q. q.bandwidth_gbs) points × (back points ≡ some p))))
plateau_cases float [] positive = inl (refl, unfold plateau in refl, unfold plateau in refl)
plateau_cases float (p ∷ ps) positive =
    let (q, found, levels) =
      plateau_lem float (λ t. t.bandwidth_gbs) (λ t. t.streams) p ps positive in
    inr (q, ap (λ r. r.0) found, ap (λ r. r.1) found, levels)

-- With memory for the array, a footprint of 256 GB at most and every time up, `run_latency_bench` ends,
-- with a result that `IsMeasured` describes, for an array of a node for every 64 bytes of the footprint,
-- but two nodes at least: the latency is the elapsed time over the hops made.
pub run_latency_bench_done {ℓ κ} :
    {F : Type ℓ} (float : Float F) {G : Type κ} (rng : Rng G)
    → IsUniform rng
    → (fuel : ℕ) (allocate : ℕ → Option (List ℕ)) (chase_clock : Clock) (clock : ℕ → Clock)
      (footprint_bytes : ℕ) (max_streams duration_ms : ℤ) (fresh : List ℕ) (n : ℕ) (rounds : ℕ → ℕ)
    → footprint_bytes ≤ 2 ^ 38
    → allocate (chase_count footprint_bytes) ≡ some fresh
    → length fresh ≡ chase_count footprint_bytes
    → TimeIsUp chase_clock (chase_clock 0) (ms_to_ns duration_ms) 1 n
    → n < fuel
    → ((k : ℕ) → TimeIsUp (clock k) (clock k 0) (ms_to_ns duration_ms) 1 (rounds k))
    → ((k : ℕ) → rounds k < fuel)
    → (r : LatencyBenchResult F) × (run_latency_bench float rng fuel allocate chase_clock clock
          footprint_bytes max_streams duration_ms
        ≡ done r)
      × IsMeasured float
          (if ltb (footprint_bytes / 64) 2 then 2 else footprint_bytes / 64)
          max_streams
          (float.div
            (float.of_ℕ (sub_u64 (chase_clock (n + 2)) (chase_clock 0)))
            (float.of_ℕ (64 * suc n % 2 ^ 64)))
          r
unfolding run_latency_bench
run_latency_bench_done float rng uniform fuel allocate chase_clock clock bytes max_streams
      duration_ms fresh n rounds small room len up enough ups enoughs =
    let count = chase_count bytes in
    let some_node : 0 < count = unfold chase_count in ground arith in
    let (arr, built, _, _, _) =
      build_chase_array-cycle rng uniform allocate bytes fresh 0 small room len some_node in
    let (latency_is, _) =
      measure_dependent_latency_lem float fuel chase_clock arr duration_ms n up enough in
    let (points, ran, streams_are, positive) =
      mlp_sweep_done float fuel clock arr count max_streams duration_ms rounds ups enoughs 0
        stream_candidates (omega arith) in
    let latency =
      float.div (float.of_ℕ (sub_u64 (chase_clock (n + 2)) (chase_clock 0)))
        (float.of_ℕ (64 * suc n % 2 ^ 64)) in
    let found = plateau float (λ (p : MlpPoint _). p.bandwidth_gbs) (λ p. p.streams) points in
    (
      record {
        footprint_bytes = count * node_bytes % 2 ^ 64;
        dependent_chain_latency_ns = latency;
        mlp_scaling = points;
        mlp_plateau_streams = found.0;
        mlp_plateau_bandwidth_gbs = found.1;
        implied_outstanding_requests = implied_outstanding float found.1 latency;
      },
      rw (run_latency_bench, built, latency_is, ran) refl,
      unfold chase_count in
          record {
            footprint = refl;
            latency_of = refl;
            streams = streams_are;
            plateau_at = plateau_cases float points positive;
            outstanding = unfold implied_outstanding in refl;
          },
    )
