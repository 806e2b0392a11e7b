-- ===== src/Chase/Extend.antt =====
-- A cycle stays one when a node that stood alone is put before one of its nodes.
use llm_river.Base.Counting.{count, OnceBelow}
use llm_river.Base.{
  ℕ, suc, ◌+◌, ◌<◌, ◌≡◌, ◌≢◌, refl, ap, List, [], ◌∷◌, arith, ◌==◌, if◌then◌else◌, length, ◌∙◌, sym,
  ==_iff, Bool-cases, inl, inr,
}
use llm_river.Chase.Cycle.{Chain}
use llm_river.Chase.Positions.{transpose}

-- A walk with `m` visited just before `j`.
insert_before : ℕ → ℕ → List ℕ → List ℕ
insert_before j m [] = m ∷ []
insert_before j m (z ∷ zs) = if z == j then m ∷ z ∷ zs else z ∷ insert_before j m zs

count-insert_before :
    (j m : ℕ) (zs : List ℕ) (a : ℕ)
    → count a (insert_before j m zs) ≡ (if a == m then 1 else 0) + count a zs
unfolding insert_before
count-insert_before j m [] a = omega arith
count-insert_before j m (z ∷ zs) a = ground (arith, count-insert_before j m zs a)

length-insert_before : (j m : ℕ) (zs : List ℕ) → length (insert_before j m zs) ≡ suc (length zs)
unfolding insert_before
length-insert_before j m [] = refl
length-insert_before j m (z ∷ zs) = ground (arith, length-insert_before j m zs)

module _ (f : ℕ → ℕ) (j m : ℕ) (fixed : f m ≡ m) (ne : m ≢ j) where
  abbrev moved : ℕ → ℕ
  moved x = transpose m j (f x)

  Chain-moved_away :
      (x : ℕ) (zs : List ℕ) (y : ℕ)
      → Chain f x zs y
      → count j zs ≡ 0
      → count m zs ≡ 0
      → Chain moved x zs (transpose m j y)
  Chain-moved_away x [] y h cj cm = ap (transpose m j) h
  Chain-moved_away x (z ∷ zs) y (e, h) cj cm = (
    unfold transpose in ground (arith, e),
    Chain-moved_away z zs y h (ground arith) (ground arith),
  )

  moved_last : moved m ≡ j
  unfolding transpose
  moved_last = ground (arith, fixed)

  Chain-insert_before :
      (x : ℕ) (zs : List ℕ) (y : ℕ)
      → Chain f x zs y
      → count j zs ≡ 1
      → count m zs ≡ 0
      → Chain moved x (insert_before j m zs) (transpose m j y)
  unfolding insert_before
  Chain-insert_before x [] y h cj cm = absurd (omega arith)
  Chain-insert_before x (z ∷ zs) y (e, h) cj cm = elim (Bool-cases (z == j)) [
    | inl t ↦
        let same : z ≡ j = (==_iff z j).0 t in
        rw t (
          unfold transpose in ground (arith, e),
          (moved_last ∙ sym same, Chain-moved_away z zs y h (ground arith) (ground arith)),
        )
    | inr t ↦ rw t (
      unfold transpose in ground (arith, e),
      Chain-insert_before z zs y h (ground arith) (ground arith),
    )
  ]

  -- A cycle on the numbers below `m` takes `m` in before `j`.
  pub extend_cycle :
      (x : ℕ) (zs : List ℕ)
      → Chain f x zs x
      → OnceBelow m (x ∷ zs)
      → suc (length zs) ≡ m
      → j < m
      → (x' : ℕ) × (zs' : List ℕ) × Chain moved x' zs' x'
        × OnceBelow (suc m) (x' ∷ zs')
        × (suc (length zs') ≡ suc m)
  extend_cycle x zs h once len lt = elim (Bool-cases (j == x)) [
    | inl t ↦
        let same : j ≡ x = (==_iff j x).0 t in
        let back : transpose m j x ≡ m = unfold transpose in ground (arith, same) in
        (
          m,
          x ∷ zs,
          (
            moved_last ∙ same,
            rw back at
                (Chain-moved_away x zs x h (ground (arith, once j)) (ground (arith, once m))),
          ),
          λ a. ground (arith, once a),
          ap suc len,
        )
    | inr t ↦
        let stays : transpose m j x ≡ x = unfold transpose in ground (arith, once m) in
        (
          x,
          insert_before j m zs,
          rw stays at
              (Chain-insert_before x zs x h (ground (arith, once j)) (ground (arith, once m))),
          λ a. ground (arith, once a, count-insert_before j m zs a),
          ap suc (length-insert_before j m zs ∙ len),
        )
  ]
