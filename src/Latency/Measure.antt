-- ===== src/Latency/Measure.antt =====
-- What the two measurements of tools/roofline/src/latency_bench.cpp count.
use mathlib.Core.List.{map}
use mathlib.Core.Path.{ap₂}
use native.Mathlib.Nat.{mod-eq_of_lt, div-mul-le_self, le-div_iff_mul-le}
use llm_river.Base.Int.{ℤ}
use llm_river.Base.{
  ℕ, zero, suc, ◌+◌, ◌*◌, ◌/◌, ◌%◌, ◌^◌, ◌≤◌, ◌<◌, some, List, [], ◌∷◌, ◌≡◌, refl, ap, ◌∙◌, sym,
  arith, All,
}
use llm_river.Chase.Cycle.{after}
use llm_river.Chase.{next, u32}
use llm_river.Clock.{Clock, TimeIsUp, repeat, timed_loop-repeat, sub_u64, ms_to_ns}
use llm_river.Float.{Float}
use llm_river.Latency.{
  follow, Chased, chase_pass, measure_dependent_latency, advance, start_cursors, Streams,
  streams_pass, bandwidth_of, measure_mlp_bandwidth,
}

follow-after : (arr : List ℕ) (n cur : ℕ) → follow arr n cur ≡ after (next arr) cur n
unfolding follow after
follow-after arr zero cur = refl
follow-after arr (suc n) cur = follow-after arr n (next arr cur)

after-add : (f : ℕ → ℕ) (m n x : ℕ) → after f (after f x m) n ≡ after f x (m + n)
unfolding after
after-add f zero n x = ap (after f x) {x = n} {y = 0 + n} (omega arith)
after-add f (suc m) n x =
    after-add f m n (f x) ∙ ap (after f x) (let e : suc (m + n) ≡ suc m + n = omega arith in e)

repeat-chase_pass :
    (arr : List ℕ) (m : ℕ) (s : Chased)
    → s.hops < 2 ^ 64
    → ((repeat m (chase_pass arr) s).cur ≡ after (next arr) s.cur (64 * m))
      × ((repeat m (chase_pass arr) s).hops ≡ (s.hops + 64 * m) % 2 ^ 64)
unfolding chase_pass
repeat-chase_pass arr zero s h = (unfold after in refl, omega arith)
repeat-chase_pass arr (suc m) s h =
    let (c, k) = repeat-chase_pass arr m (chase_pass arr s) (omega arith) in
    (
      c
          ∙ ap (λ x. after (next arr) x (64 * m)) (follow-after arr 64 s.cur)
          ∙ after-add (next arr) 64 (64 * m) s.cur
          ∙ ap (after (next arr) s.cur) (omega arith),
      omega (arith, k),
    )

-- With `n + 1` passes before its time is up, the dependent chase makes 64 hops a pass, each from
-- where the one before it led, and the latency is the elapsed time over their number.
pub measure_dependent_latency_lem {ℓ} :
    {F : Type ℓ} (float : Float F) (fuel : ℕ) (clock : Clock) (arr : List ℕ) (duration_ms : ℤ)
    (n : ℕ)
    → TimeIsUp clock (clock 0) (ms_to_ns duration_ms) 1 n
    → n < fuel
    → (measure_dependent_latency float fuel clock arr duration_ms
        ≡ some (
            float.div
              (float.of_ℕ (sub_u64 (clock (n + 2)) (clock 0)))
              (float.of_ℕ (64 * suc n % 2 ^ 64))))
      × ((repeat (suc n) (chase_pass arr) (record { cur = 0; hops = 0 })).cur
          ≡ after (next arr) 0 (64 * suc n))
unfolding measure_dependent_latency
measure_dependent_latency_lem float fuel clock arr duration_ms n t enough =
    let s : Chased = record { cur = 0; hops = 0 } in
    let (c, k) = repeat-chase_pass arr (suc n) s (omega arith) in
    let hops : (repeat (suc n) (chase_pass arr) s).hops ≡ 64 * suc n % 2 ^ 64 = omega (arith, k) in
    let at : 1 + suc n ≡ n + 2 = omega arith in
    (
      rw
          (
            timed_loop-repeat clock (clock 0) (ms_to_ns duration_ms) (chase_pass arr) n 1 fuel s t
                enough,
            measure_dependent_latency,
          )
          (ap₂ (λ i m. some (float.div (float.of_ℕ (sub_u64 (clock i) (clock 0))) (float.of_ℕ m)))
            at hops),
      c,
    )

map-map : (f g : ℕ → ℕ) (xs : List ℕ) → map f (map g xs) ≡ map (λ x. f (g x)) xs
map-map f g [] = refl
map-map f g (x ∷ xs) = ap (◌∷◌ (f (g x))) (map-map f g xs)

map_self : (xs : List ℕ) → map (λ x. x) xs ≡ xs
map_self [] = refl
map_self (x ∷ xs) = ap (◌∷◌ x) (map_self xs)

-- The streams do not meet in the loop: each walks from its own cursor.
pub advance-map :
    (arr : List ℕ) (n : ℕ) (cursors : List ℕ)
    → advance arr n cursors ≡ map (λ c. after (next arr) c n) cursors
unfolding advance after
advance-map arr zero cursors = sym (map_self cursors)
advance-map arr (suc n) cursors =
    advance-map arr n (map (next arr) cursors)
    ∙ map-map (λ c. after (next arr) c n) (next arr) cursors

map-after_add :
    (arr : List ℕ) (m n : ℕ) (cs : List ℕ)
    → map (λ c. after (next arr) c n) (map (λ c. after (next arr) c m) cs)
      ≡ map (λ c. after (next arr) c (m + n)) cs
map-after_add arr m n [] = refl
map-after_add arr m n (c ∷ cs) = ap₂ ◌∷◌ (after-add (next arr) m n c) (map-after_add arr m n cs)

repeat-streams_pass :
    (arr : List ℕ) (streams m : ℕ) (s : Streams)
    → s.hops < 2 ^ 64
    → ((repeat m (streams_pass arr streams) s).cursors
        ≡ map (λ c. after (next arr) c (16 * m)) s.cursors)
      × ((repeat m (streams_pass arr streams) s).hops ≡ (s.hops + 16 * streams * m) % 2 ^ 64)
unfolding streams_pass
repeat-streams_pass arr streams zero s h = (unfold after in sym (map_self s.cursors), omega arith)
repeat-streams_pass arr streams (suc m) s h =
    let (c, k) = repeat-streams_pass arr streams m (streams_pass arr streams s) (omega arith) in
    let far : 16 + 16 * m ≡ 16 * suc m = omega arith in
    (
      c
          ∙ ap (map (λ x. after (next arr) x (16 * m))) (advance-map arr 16 s.cursors)
          ∙ map-after_add arr 16 (16 * m) s.cursors
          ∙ ap (λ j. map (λ x. after (next arr) x j) s.cursors) far,
      omega (arith, k),
    )

abbrev pub multiples : ℕ → ℕ → ℕ → List ℕ
multiples d zero k = []
multiples d (suc left) k = d * k ∷ multiples d left (k + 1)

cursor-lt : (d k s count : ℕ) → d * s ≤ count → k < s → 1 ≤ d → d * k < count
cursor-lt d k s count h lt pos = grind arith

spread :
    (count streams left k : ℕ)
    → k + left ≤ streams
    → 1 ≤ count / streams
    → count / streams * streams ≤ count
    → count ≤ 2 ^ 32
    → (start_cursors count streams left k ≡ multiples (count / streams) left k)
      × All (λ c. c < count) (start_cursors count streams left k)
unfolding start_cursors
spread count streams zero k h pos fits small = (refl, tt)
spread count streams (suc left) k h pos fits small =
    let at : ℕ = count / streams * k in
    let below : at < count = cursor-lt (count / streams) k streams count fits (omega arith) pos in
    let word : at % 2 ^ 32 ≡ at = omega arith in
    let whole : u32 at % count ≡ at = ap (λ x. x % count) word ∙ mod-eq_of_lt below in
    let (rest, belows) = spread count streams left (k + 1) (omega arith) pos fits small in
    (ap₂ ◌∷◌ whole rest, (rw whole below, belows))

-- The cursors start inside the array, at equal distances of at least one node, provided that there
-- are no more streams than nodes and that the nodes' indices fit 32 bits.
pub start_cursors_lem :
    (count streams : ℕ)
    → 1 ≤ streams
    → streams ≤ count
    → count ≤ 2 ^ 32
    → (start_cursors count streams streams 0 ≡ multiples (count / streams) streams 0)
      × (1 ≤ count / streams)
      × All (λ c. c < count) (start_cursors count streams streams 0)
start_cursors_lem count streams pos le small =
    let apart : 1 ≤ count / streams = (le-div_iff_mul-le pos).1 (omega arith) in
    let (same, belows) =
      spread count streams streams 0 (omega arith) apart (div-mul-le_self count streams) small in
    (same, apart, belows)

-- With `n + 1` passes before its time is up, `measure_mlp_bandwidth` counts 16 hops a stream and pass,
-- and each stream has by then walked its own chain from its own cursor as far.
pub measure_mlp_bandwidth_lem {ℓ} :
    {F : Type ℓ} (float : Float F) (fuel : ℕ) (clock : Clock) (arr : List ℕ) (count streams : ℕ)
    (duration_ms : ℤ) (n : ℕ)
    → TimeIsUp clock (clock 0) (ms_to_ns duration_ms) 1 n
    → n < fuel
    → (measure_mlp_bandwidth float fuel clock arr count streams duration_ms
        ≡ some (
            bandwidth_of float (16 * streams * suc n % 2 ^ 64) (sub_u64 (clock (n + 2)) (clock 0))))
      × ((repeat
            (suc n)
            (streams_pass arr streams)
            (record { cursors = start_cursors count streams streams 0; hops = 0 })).cursors
          ≡ map (λ c. after (next arr) c (16 * suc n)) (start_cursors count streams streams 0))
measure_mlp_bandwidth_lem float fuel clock arr count streams duration_ms n t enough =
    let s : Streams = record { cursors = start_cursors count streams streams 0; hops = 0 } in
    let (c, k) = repeat-streams_pass arr streams (suc n) s (omega arith) in
    let hops : (repeat (suc n) (streams_pass arr streams) s).hops ≡ 16 * streams * suc n % 2 ^ 64 =
      omega (arith, k) in
    let at : 1 + suc n ≡ n + 2 = omega arith in
    (
      unfold measure_mlp_bandwidth in
          rw
            (
              timed_loop-repeat clock (clock 0) (ms_to_ns duration_ms) (streams_pass arr streams) n
                  1 fuel s t enough,
              measure_mlp_bandwidth,
            )
            (ap₂ (λ i m. some (bandwidth_of float m (sub_u64 (clock i) (clock 0)))) at hops),
      c,
    )
