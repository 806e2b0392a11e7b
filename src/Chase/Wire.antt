-- ===== src/Chase/Wire.antt =====
-- `wire_single_cycle` of tools/roofline/src/chase.hpp: the walk over the wired array.
use native.Mathlib.Nat.{mod_self, mod-eq_of_lt}
use mathlib.Core.Path.{subst}
use llm_river.Base.Counting.{count, OnceBelow}
use llm_river.Base.{
  ℕ, suc, ◌+◌, ◌^◌, ◌%◌, ◌≤◌, ◌<◌, ◌≡◌, refl, ap, some, List, [], ◌∷◌, ◌++◌, arith, length,
  length-append, All, ◌∙◌, sym, get_elem?, set, append_assoc, get_or-set_self, get_or-set_ne,
  length-set,
}
use llm_river.Chase.Cycle.{orbit, after, Chain, All-lt, cycle_visits}
use llm_river.Chase.Sattolo.{build_single_cycle_permutation-cycle}
use llm_river.Chase.{wire_from, write_next, wire_single_cycle, next}
use llm_river.Random.{Rng, IsUniform}

-- The writes of the loop over what is left of the walk, `home` being its first node.
wire_list : ℕ → List ℕ → List ℕ → List ℕ
wire_list home [] arr = arr
wire_list home (x ∷ []) arr = set arr x home
wire_list home (x ∷ y ∷ zs) arr = wire_list home (y ∷ zs) (set arr x y)

get_elem?-append :
    (pre : List ℕ) (x : ℕ) (zs : List ℕ) → get_elem? (pre ++ x ∷ zs) (length pre) ≡ some x
get_elem?-append [] x zs = refl
get_elem?-append (p ∷ pre) x zs = get_elem?-append pre x zs

write_next_lem : (arr : List ℕ) (i v : ℕ) → i < length arr → write_next arr i v ≡ some (set arr i v)
unfolding write_next
write_next_lem arr i v h = ground arith

-- One round, inside the bounds.
wire_from_round :
    (perm : List ℕ) (n left k x y : ℕ) (arr : List ℕ)
    → get_elem? perm k ≡ some x
    → get_elem? perm ((k + 1) % n) ≡ some y
    → x < length arr
    → wire_from perm n (suc left) k arr ≡ wire_from perm n left (k + 1) (set arr x y)
unfolding wire_from
wire_from_round perm n left k x y arr hx hy h = rw (hx, hy, write_next_lem arr x y h)

-- The loop does those writes, and none of them is out of bounds.
wire_from-wire_list :
    (home : ℕ) (tail pre : List ℕ) (rest : List ℕ) (arr : List ℕ)
    → pre ++ rest ≡ home ∷ tail
    → All (λ z. z < length arr) rest
    → wire_from (home ∷ tail) (suc (length tail)) (length rest) (length pre) arr
      ≡ some (wire_list home rest arr)
unfolding wire_list
wire_from-wire_list home tail pre [] arr split small = unfold wire_from in refl
wire_from-wire_list home tail pre (x ∷ []) arr split (hx, _) =
    let here : get_elem? (home ∷ tail) (length pre) ≡ some x =
      rw (← split) (get_elem?-append pre x []) in
    let size : length pre + 1 ≡ suc (length tail) =
      omega (arith, ap length split, length-append pre (x ∷ [])) in
    let wraps : (length pre + 1) % suc (length tail) ≡ 0 = rw size (mod_self (suc (length tail))) in
    wire_from_round (home ∷ tail) (suc (length tail)) 0 (length pre) x home arr here (rw wraps) hx
    ∙ unfold wire_from in refl
wire_from-wire_list home tail pre (x ∷ y ∷ zs) arr split (hx, hs) =
    let here : get_elem? (home ∷ tail) (length pre) ≡ some x =
      rw (← split) (get_elem?-append pre x (y ∷ zs)) in
    let split' : (pre ++ x ∷ []) ++ y ∷ zs ≡ home ∷ tail =
      append_assoc pre (x ∷ []) (y ∷ zs) ∙ split in
    let len' : length (pre ++ x ∷ []) ≡ length pre + 1 =
      omega (arith, length-append pre (x ∷ [])) in
    let there : get_elem? (home ∷ tail) (length pre + 1) ≡ some y =
      rw (← len', ← split') (get_elem?-append (pre ++ x ∷ []) y zs) in
    let size : length pre + 1 < suc (length tail) =
      omega (arith, ap length split, length-append pre (x ∷ y ∷ zs)) in
    let stays : (length pre + 1) % suc (length tail) ≡ length pre + 1 = mod-eq_of_lt size in
    wire_from_round (home ∷ tail) (suc (length tail)) (suc (length zs)) (length pre) x y arr here
      (rw stays there) hx
    ∙ rw (← len') (
        wire_from-wire_list home tail (pre ++ x ∷ []) (y ∷ zs) (set arr x y) split'
          (subst (λ n. All (λ z. z < n) (y ∷ zs)) (sym (length-set arr x y)) hs))

length-wire_list : (home : ℕ) (rest arr : List ℕ) → length (wire_list home rest arr) ≡ length arr
unfolding wire_list
length-wire_list home [] arr = refl
length-wire_list home (x ∷ []) arr = length-set arr x home
length-wire_list home (x ∷ y ∷ zs) arr =
    length-wire_list home (y ∷ zs) (set arr x y) ∙ length-set arr x y

-- Nodes that are not on the list keep their successors.
next-wire_list :
    (home : ℕ) (rest arr : List ℕ) (a : ℕ)
    → count a rest ≡ 0
    → next (wire_list home rest arr) a ≡ next arr a
unfolding wire_list
next-wire_list home [] arr a h = refl
next-wire_list home (x ∷ []) arr a h = get_or-set_ne arr x a home 0 (ground arith)
next-wire_list home (x ∷ y ∷ zs) arr a h =
    next-wire_list home (y ∷ zs) (set arr x y) a (ground arith)
    ∙ get_or-set_ne arr x a y 0 (ground arith)

wire_list-Chain :
    (home x : ℕ) (zs arr : List ℕ)
    → ((a : ℕ) → count a (x ∷ zs) ≤ 1)
    → All (λ z. z < length arr) (x ∷ zs)
    → Chain (next (wire_list home (x ∷ zs) arr)) x zs home
unfolding wire_list
wire_list-Chain home x [] arr once (hx, _) = get_or-set_self arr x home 0 hx
wire_list-Chain home x (y ∷ zs) arr once (hx, hs) = (
  next-wire_list home (y ∷ zs) (set arr x y) x (ground (arith, once x))
      ∙ get_or-set_self arr x y 0 hx,
  wire_list-Chain home y zs (set arr x y) (λ a. ground (arith, once a))
      (subst (λ n. All (λ z. z < n) (y ∷ zs)) (sym (length-set arr x y)) hs),
)

-- `wire_single_cycle` never leaves the array, and wires its first `count` nodes into one cycle:
-- starting at any of them, following `next` visits every one of them exactly once and then is back
-- at the start. The indices fit the 32 bits of `next`, and the array holds `count` nodes.
pub wire_single_cycle-cycle {ℓ} :
    {G : Type ℓ} (rng : Rng G)
    → IsUniform rng
    → (arr : List ℕ) (count seed s : ℕ) → count ≤ 2 ^ 32
    → count ≤ length arr
    → s < count
    → (wired : List ℕ) × (wire_single_cycle rng arr count seed ≡ some wired)
      × (length wired ≡ length arr)
      × OnceBelow count (orbit (next wired) s count)
      × (after (next wired) s count ≡ s)
unfolding wire_single_cycle
wire_single_cycle-cycle rng uniform arr n seed s fits room lt =
    let (perm, e, size, once, _, _) =
      build_single_cycle_permutation-cycle rng uniform n seed s fits lt in
    rw e (walk perm size once)
  where
    walk :
        (perm : List ℕ)
        → length perm ≡ n
        → OnceBelow n perm
        → (wired : List ℕ) × (wire_from perm n n 0 arr ≡ some wired)
          × (length wired ≡ length arr)
          × OnceBelow n (orbit (next wired) s n)
          × (after (next wired) s n ≡ s)
    walk [] size once = absurd (omega arith)
    walk (x ∷ zs) size once =
        let below : All (λ z. z < length arr) (x ∷ zs) =
          All-lt (length arr) (x ∷ zs) (λ a. ground (arith, once a)) in
        let wired : List ℕ = wire_list x (x ∷ zs) arr in
        let (visits, back) =
          cycle_visits (next wired) n x zs s
            (wire_list-Chain x x zs arr (λ a. ground (arith, once a)) below) once size lt in
        (
          wired,
          subst (λ m. wire_from (x ∷ zs) m m 0 arr ≡ some wired) size
              (wire_from-wire_list x zs [] (x ∷ zs) arr refl below),
          length-wire_list x (x ∷ zs) arr,
          visits,
          back,
        )
