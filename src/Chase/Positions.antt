-- ===== src/Chase/Positions.antt =====
-- What a swap does to the positions of a list, and the list that a permutation starts from.
use llm_river.Base.Counting.{count, count-set}
use llm_river.Base.{
  ℕ, zero, suc, ◌+◌, ◌^◌, ◌≤◌, ◌<◌, ◌≡◌, ◌≢◌, refl, ap, some, List, arith, ltb, ◌==◌, if◌then◌else◌,
  length, ◌∙◌, get_or, set, get_elem?-get_or, get_or-set_self, get_or-set_ne, length-set,
}
use llm_river.Chase.{identity_from, swap}

unfoldable pub transpose : ℕ → ℕ → ℕ → ℕ
transpose i j x = if x == i then j else if x == j then i else x

pub swapped : List ℕ → ℕ → ℕ → List ℕ
swapped p i j = set (set p i (get_or p j 0)) j (get_or p i 0)

module _ (p : List ℕ) (i j : ℕ) (hi : i < length p) (hj : j < length p) where
  pub swap-swapped : swap p i j ≡ some (swapped p i j)
  unfolding swap swapped
  swap-swapped = rw (get_elem?-get_or p i 0 hi, get_elem?-get_or p j 0 hj)

  pub length-swapped : length (swapped p i j) ≡ length p
  unfolding swapped
  length-swapped = length-set (set p i (get_or p j 0)) j _ ∙ length-set p i _

  pub count-swapped : (a : ℕ) → i ≢ j → count a (swapped p i j) ≡ count a p
  unfolding swapped
  count-swapped a ne =
      let b = get_or p j 0 in
      let hj' : j < length (set p i b) = rw (length-set p i b) hj in
      omega (
        arith,
        count-set a p i b 0 hi,
        rw (get_or-set_ne p i j b 0 ne) at (count-set a (set p i b) j (get_or p i 0) 0 hj'),
      )

  pub get_or-swapped : (x : ℕ) → i ≢ j → get_or (swapped p i j) x 0 ≡ get_or p (transpose i j x) 0
  unfolding swapped transpose
  get_or-swapped x ne =
      let b = get_or p j 0 in
      let hj' : j < length (set p i b) = rw (length-set p i b) hj in
      ground (
        arith,
        get_or-set_self (set p i b) j (get_or p i 0) 0 hj',
        get_or-set_ne (set p i b) j x (get_or p i 0) 0,
        get_or-set_self p i b 0 hi,
        get_or-set_ne p i x b 0,
      )

pub length-identity_from : (n i : ℕ) → length (identity_from n i) ≡ n
unfolding identity_from
length-identity_from zero i = refl
length-identity_from (suc n) i = ap suc (length-identity_from n (i + 1))

pub get_or-identity_from :
    (n i x : ℕ) → i + n ≤ 2 ^ 32 → x < n → get_or (identity_from n i) x 0 ≡ i + x
unfolding identity_from
get_or-identity_from zero i x b h = elim h [ ]
get_or-identity_from (suc n) i zero b h = omega arith
get_or-identity_from (suc n) i (suc x) b h =
    omega (arith, get_or-identity_from n (i + 1) x (omega arith) (omega arith))

pub count-identity_from :
    (n i a : ℕ)
    → i + n ≤ 2 ^ 32
    → count a (identity_from n i) ≡ (if ltb a i then 0 else if ltb a (i + n) then 1 else 0)
unfolding identity_from
count-identity_from zero i a b = ground arith
count-identity_from (suc n) i a b = ground (arith, count-identity_from n (i + 1) a)
