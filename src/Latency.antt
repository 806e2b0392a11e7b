-- ===== src/Latency.antt =====
-- tools/roofline/src/latency_bench.cpp: the chase array, the two measurements and the bench.
pub mod Measure
pub mod Bench
use mathlib.Core.List.{map}
use llm_river.Base.Int.{ℤ, pos, leb_ℤ}
use llm_river.Base.Run.{Run, undefined, out_of_fuel, done, ◌>>=◌, or_stop}
use llm_river.Base.{
  ℕ, zero, suc, ◌+◌, ◌*◌, ◌/◌, ◌%◌, ◌^◌, Bool, not, ◌||◌, Option, none, some, List, [], ◌∷◌, ltb,
  if◌then◌else◌,
}
use llm_river.Chase.{u32, next, wire_single_cycle}
use llm_river.Clock.{Clock, sub_u64, ms_to_ns, timed_loop}
use llm_river.Float.{Float}
use llm_river.Plateau.{plateau}
use llm_river.Random.{Rng}
use llm_river.Report.Structs.{MlpPoint, LatencyBenchResult}

-- `sizeof(Node)`
abbrev pub node_bytes : ℕ
node_bytes = 64

-- The nodes of the array.
unfoldable pub chase_count : ℕ → ℕ
chase_count footprint_bytes =
    let count = footprint_bytes / node_bytes in if ltb count 2 then 2 else count

-- `allocate count` is what `std::aligned_alloc` gives: `count` nodes with whatever their memory
-- holds, or a null pointer, which the code does not look for.
unfoldable pub build_chase_array {ℓ} :
    {G : Type ℓ} → Rng G → (ℕ → Option (List ℕ)) → ℕ → Option (List ℕ)
unfolding chase_count wire_single_cycle
build_chase_array rng allocate footprint_bytes =
    let count = chase_count footprint_bytes in
    elim (allocate count) [ none ↦ none | some arr ↦ wire_single_cycle rng arr count 0x5eed5eed ]

-- `for (int u = 0; u < n; ++u) cur = arr[cur].next;`
unfoldable pub follow : List ℕ → ℕ → ℕ → ℕ
follow arr zero cur = cur
follow arr (suc n) cur = follow arr n (next arr cur)

-- The state of the dependent chase: the node and the hops made.
pub record Chased : Type 0 where
  pub cur : ℕ
  pub hops : ℕ

unfoldable pub chase_pass : List ℕ → Chased → Chased
unfolding follow
chase_pass arr s = record { cur = follow arr 64 s.cur; hops = (s.hops + 64) % 2 ^ 64 }

-- `for (int k …) cursors[k] = arr[cursors[k]].next;`, and that as often as `rep` says
unfoldable pub advance : List ℕ → ℕ → List ℕ → List ℕ
advance arr zero cursors = cursors
advance arr (suc reps) cursors = advance arr reps (map (next arr) cursors)

-- Where cursor `k` and those after it start, `left` of them.
unfoldable pub start_cursors : ℕ → ℕ → ℕ → ℕ → List ℕ
start_cursors count streams zero k = []
start_cursors count streams (suc left) k =
    u32 (count / streams * k) % count ∷ start_cursors count streams left (k + 1)

pub record Streams : Type 0 where
  pub cursors : List ℕ
  pub hops : ℕ

unfoldable pub streams_pass : List ℕ → ℕ → Streams → Streams
unfolding advance
streams_pass arr streams s = record {
  cursors = advance arr 16 s.cursors;
  hops = (s.hops + 16 * streams) % 2 ^ 64;
}

abbrev pub stream_candidates : List ℕ
stream_candidates = 1 ∷ 2 ∷ 4 ∷ 8 ∷ 16 ∷ 32 ∷ 64 ∷ 128 ∷ []

module _ {ℓ} {F : Type ℓ} (float : Float F) where
  open float use {of_ℕ, div, mul, lt}

  -- Reading 0 of the clock is the start; the reading after the loop is the end.
  unfoldable pub measure_dependent_latency : ℕ → Clock → List ℕ → ℤ → Option F
  unfolding timed_loop chase_pass sub_u64 ms_to_ns
  measure_dependent_latency fuel clock arr duration_ms =
      elim (timed_loop clock (clock 0) (ms_to_ns duration_ms) (chase_pass arr) fuel 1
        (record { cur = 0; hops = 0 })) [
          | none ↦ none
          | some (s, i) ↦ some (div (of_ℕ (sub_u64 (clock i) (clock 0))) (of_ℕ s.hops))
        ]

  -- The bandwidth of `hops` hops in `elapsed` ns.
  unfoldable pub bandwidth_of : ℕ → ℕ → F
  bandwidth_of hops elapsed =
      let giga = of_ℕ 1_000_000_000 in
      let bytes = mul (of_ℕ hops) (of_ℕ node_bytes) in
      let seconds = div (of_ℕ elapsed) giga in
      if lt (of_ℕ 0) seconds then div (div bytes giga) seconds else of_ℕ 0

  unfoldable pub measure_mlp_bandwidth : ℕ → Clock → List ℕ → ℕ → ℕ → ℤ → Option F
  unfolding timed_loop streams_pass start_cursors sub_u64 ms_to_ns bandwidth_of
  measure_mlp_bandwidth fuel clock arr count streams duration_ms =
      elim (timed_loop clock (clock 0) (ms_to_ns duration_ms) (streams_pass arr streams) fuel 1
        (record { cursors = start_cursors count streams streams 0; hops = 0 })) [
          | none ↦ none
          | some (s, i) ↦ some (bandwidth_of s.hops (sub_u64 (clock i) (clock 0)))
        ]

  -- The loop over the candidates, with its two `break`s; `clock k` is the clock of `k` streams.
  unfoldable pub mlp_sweep :
      ℕ → (ℕ → Clock) → List ℕ → ℕ → ℤ → ℤ → List ℕ → Option (List (MlpPoint F))
  unfolding measure_mlp_bandwidth
  mlp_sweep fuel clock arr count max_streams duration_ms [] = some []
  mlp_sweep fuel clock arr count max_streams duration_ms (k ∷ ks) =
      let rest = mlp_sweep fuel clock arr count max_streams duration_ms ks in
      if not (leb_ℤ (pos k) max_streams) || ltb count k
      then some []
      else elim (measure_mlp_bandwidth fuel (clock k) arr count k duration_ms) [
        | none ↦ none
        | some gbs ↦ elim rest [
          | none ↦ none
          | some points ↦ some (record { streams = pos k; bandwidth_gbs = gbs } ∷ points)
        ]
      ]

  -- Little's law at the plateau; 0.0 if no latency was measured.
  unfoldable pub implied_outstanding : F → F → F
  implied_outstanding bandwidth latency =
      if lt (of_ℕ 0) latency then div (mul bandwidth latency) (of_ℕ node_bytes) else of_ℕ 0

  unfoldable pub run_latency_bench {κ} :
      {G : Type κ}
      → Rng G
      → ℕ
      → (ℕ → Option (List ℕ))
      → Clock
      → (ℕ → Clock)
      → ℕ
      → ℤ
      → ℤ
      → Run (LatencyBenchResult F)
  unfolding build_chase_array measure_dependent_latency mlp_sweep plateau implied_outstanding
  run_latency_bench rng fuel allocate chase_clock clock footprint_bytes max_streams duration_ms = do
    let count = chase_count footprint_bytes
    arr ← or_stop undefined (build_chase_array rng allocate footprint_bytes)
    latency ← or_stop out_of_fuel (measure_dependent_latency fuel chase_clock arr duration_ms)
    points ←
        or_stop out_of_fuel
          (mlp_sweep fuel clock arr count max_streams duration_ms stream_candidates)
    let found = plateau float (λ p. p.bandwidth_gbs) (λ p. p.streams) points
    done (record {
      footprint_bytes = count * node_bytes % 2 ^ 64;
      dependent_chain_latency_ns = latency;
      mlp_scaling = points;
      mlp_plateau_streams = found.0;
      mlp_plateau_bandwidth_gbs = found.1;
      implied_outstanding_requests = implied_outstanding found.1 latency;
    })
