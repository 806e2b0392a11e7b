-- ===== src/Base/Counting.antt =====
-- How often a number stands in a list; two lists with the same counts hold the same items.
use Prim.Native.Nat.{ℕ, zero, suc, ◌+◌, ◌≤◌, ◌<◌}
use mathlib.Core.List.{List, [], ◌∷◌, ◌++◌}
use mathlib.Core.Path.{◌≡◌}
use native.Mathlib.Omega.{arith}
use llm_river.Base.Lists.{length, get_or, set}
use llm_river.Base.Tests.{◌==◌, ltb, if◌then◌else◌}

abbrev pub count : ℕ → List ℕ → ℕ
count a [] = 0
count a (x ∷ xs) = (if a == x then 1 else 0) + count a xs

-- Every number below `n` once, and no other.
abbrev pub OnceBelow : ℕ → List ℕ → Type 0
OnceBelow n xs = (a : ℕ) → count a xs ≡ (if ltb a n then 1 else 0)

pub count-append : (xs ys : List ℕ) (n : ℕ) → count n (xs ++ ys) ≡ count n xs + count n ys
count-append [] ys n = omega arith
count-append (x ∷ xs) ys n = omega (arith, count-append xs ys n)

-- A write exchanges one item for another.
pub count-set :
    (a : ℕ) (xs : List ℕ) (i v d : ℕ)
    → i < length xs
    → count a (set xs i v) + (if a == get_or xs i d then 1 else 0)
      ≡ count a xs + (if a == v then 1 else 0)
count-set a [] i v d h = elim h [ ]
count-set a (x ∷ xs) zero v d h = omega arith
count-set a (x ∷ xs) (suc i) v d h = omega (arith, count-set a xs i v d (omega arith))

pub count-get_or : (xs : List ℕ) (i d : ℕ) → i < length xs → 1 ≤ count (get_or xs i d) xs
count-get_or [] i d h = elim h [ ]
count-get_or (x ∷ xs) zero d h = ground arith
count-get_or (x ∷ xs) (suc i) d h = omega (arith, count-get_or xs i d (omega arith))
