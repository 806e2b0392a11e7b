-- ===== src/Plateau.antt =====
-- The search for the point from which on more threads, or more streams, stop paying: the loop that
-- tools/roofline/src/ram_bench.cpp and latency_bench.cpp both have, over the bandwidths of a sweep.
use mathlib.Core.Path.{subst}
use llm_river.Base.Int.{ℤ, pos, negsuc}
use llm_river.Base.{
  ◌∙◌, suc, ◌==◌, All, ℕ, Bool, true, false, Option, none, some, List, [], ◌∷◌, ◌++◌, ◌≡◌, refl, ap,
  ◌⊎◌, inl, inr, arith, if◌then◌else◌, Bool-cases,
}
use llm_river.Float.{Float}

-- `v.back()`
unfoldable pub back {ℓ} : {A : Type ℓ} → List A → Option A
back [] = none
back (p ∷ []) = some p
back (p ∷ q ∷ ps) = back (q ∷ ps)

abbrev or_else {ℓ κ} : {F : Type ℓ} {A : Type κ} → ℤ × F → (A → ℤ × F) → Option A → ℤ × F
or_else found f none = found
or_else found f (some p) = f p

-- The counts of the points are positive.
abbrev pub Positive {κ} : {A : Type κ} → (A → ℤ) → List A → Type 0
Positive count = All (λ p. (n : ℕ) × (count p ≡ pos (suc n)))

module _ {ℓ κ} {F : Type ℓ} {A : Type κ} (float : Float F) (bandwidth : A → F) where
  open float use {of_ℕ, lit, sub, div, lt, le}

  -- `if (a <= 0) continue;` and then `(b - a) / a < 0.05`
  unfoldable pub levels_off : A → A → Bool
  levels_off p q =
      let a = bandwidth p in
      let b = bandwidth q in if le a (of_ℕ 0) then false else lt (div (sub b a) a) (lit 5 2)

  -- The first point that levels off; `none` if the loop runs to its end.
  unfoldable pub find_plateau : List A → Option A
  find_plateau [] = none
  find_plateau (p ∷ []) = none
  find_plateau (p ∷ q ∷ ps) = if levels_off p q then some p else find_plateau (q ∷ ps)

  -- The bandwidth is positive, and the next one is less than 5% above it.
  abbrev pub LevelsOff : A → A → Type 0
  LevelsOff p q =
      (le (bandwidth p) (of_ℕ 0) ≡ false)
      × (lt (div (sub (bandwidth q) (bandwidth p)) (bandwidth p)) (lit 5 2) ≡ true)

  -- The bandwidth is not positive, or the next one is not less than 5% above it.
  abbrev pub GoesOn : A → A → Type 0
  GoesOn p q =
      (le (bandwidth p) (of_ℕ 0) ≡ true)
      ⊎ (lt (div (sub (bandwidth q) (bandwidth p)) (bandwidth p)) (lit 5 2) ≡ false)

  levels_off-LevelsOff : (p q : A) → levels_off p q ≡ true → LevelsOff p q
  unfolding levels_off
  levels_off-LevelsOff p q e = elim (Bool-cases (le (bandwidth p) (of_ℕ 0))) [
    | inl nought ↦ absurd (ground arith)
    | inr positive ↦ (positive, ground arith)
  ]

  levels_off-GoesOn : (p q : A) → levels_off p q ≡ false → GoesOn p q
  unfolding levels_off
  levels_off-GoesOn p q e = elim (Bool-cases (le (bandwidth p) (of_ℕ 0))) [
    | inl nought ↦ inl nought
    | inr positive ↦ inr (ground arith)
  ]

  -- No two neighbours level off.
  abbrev pub Grows : List A → Type 0
  Grows [] = Unit
  Grows (p ∷ []) = Unit
  Grows (p ∷ q ∷ ps) = GoesOn p q × Grows (q ∷ ps)

  -- `p` is where a sweep levels off for the first time: no point before it does.
  pub record IsPlateau (ps : List A) (p : A) : Type (ℓ ⊔ κ) where
    pub before : List A
    pub next : A
    pub rest : List A
    pub split : ps ≡ before ++ p ∷ next ∷ rest
    pub level : LevelsOff p next
    pub grows : Grows (before ++ p ∷ [])

  Grows-cons :
      (p q r next : A) (before ps rest : List A)
      → q ∷ ps ≡ before ++ r ∷ next ∷ rest
      → GoesOn p q
      → Grows (before ++ r ∷ [])
      → Grows (p ∷ (before ++ r ∷ []))
  Grows-cons p q r next [] ps rest s e g = (subst (λ t. GoesOn p t) (cc) e, tt)
  Grows-cons p q r next (b ∷ []) ps rest s e g = (subst (λ t. GoesOn p t) (cc) e, g)
  Grows-cons p q r next (b ∷ c ∷ before) ps rest s e g = (subst (λ t. GoesOn p t) (cc) e, g)

  IsPlateau-cons :
      (p q : A) (ps : List A) {r : A} → GoesOn p q → IsPlateau (q ∷ ps) r → IsPlateau (p ∷ q ∷ ps) r
  IsPlateau-cons p q ps {r} e t = record {
    before = p ∷ t.before;
    next = t.next;
    rest = t.rest;
    split = ap (◌∷◌ p) t.split;
    level = t.level;
    grows = Grows-cons p q r t.next t.before ps t.rest t.split e t.grows;
  }

  find_plateau_stop :
      (p q : A) (ps : List A) → levels_off p q ≡ true → find_plateau (p ∷ q ∷ ps) ≡ some p
  unfolding find_plateau
  find_plateau_stop p q ps e = rw e

  find_plateau_go :
      (p q : A) (ps : List A)
      → levels_off p q ≡ false
      → find_plateau (p ∷ q ∷ ps) ≡ find_plateau (q ∷ ps)
  unfolding find_plateau
  find_plateau_go p q ps e = rw e

  -- The loop ends at the first levelling, or there is none.
  pub find_plateau_lem :
      (ps : List A)
      → ((find_plateau ps ≡ none) × Grows ps)
        ⊎ ((p : A) × (find_plateau ps ≡ some p) × IsPlateau ps p)
  find_plateau_lem [] = inl (unfold find_plateau in refl, tt)
  find_plateau_lem (p ∷ []) = inl (unfold find_plateau in refl, tt)
  find_plateau_lem (p ∷ q ∷ ps) = elim (Bool-cases (levels_off p q)) [
    | inl e ↦ inr (
      p,
      find_plateau_stop p q ps e,
      record {
        before = [];
        next = q;
        rest = ps;
        split = refl;
        level = levels_off-LevelsOff p q e;
        grows = tt;
      },
    )
    | inr e ↦ elim (find_plateau_lem (q ∷ ps)) [
      | inl (none_left, g) ↦
          inl (find_plateau_go p q ps e ∙ none_left, (levels_off-GoesOn p q e, g))
      | inr (r, found, t) ↦
          inr
            (r, find_plateau_go p q ps e ∙ found, IsPlateau-cons p q ps (levels_off-GoesOn p q e) t)
    ]
  ]

  -- Zero is how the code says that the loop found nothing.
  abbrev is_zero : ℤ → Bool
  is_zero (pos n) = n == 0
  is_zero (negsuc n) = false

  -- The loop's result, or else the last point; (0, 0.0) for an empty sweep.
  unfoldable pub plateau : (A → ℤ) → List A → ℤ × F
  unfolding find_plateau back
  plateau count ps =
      let found = or_else (pos 0, of_ℕ 0) (λ p. (count p, bandwidth p)) (find_plateau ps) in
      if is_zero found.0 then or_else found (λ p. (count p, bandwidth p)) (back ps) else found

  back-some : (count : A → ℤ) (p : A) (ps : List A) → (q : A) × (back (p ∷ ps) ≡ some q)
  unfolding back
  back-some count p [] = (p, refl)
  back-some count p (q ∷ ps) = back-some count q ps

  All-split :
      (P : A → Type 0) (before : List A) (p : A) (rest : List A) → All P (before ++ p ∷ rest) → P p
  All-split P [] p rest h = h.0
  All-split P (b ∷ before) p rest h = All-split P before p rest h.1

  -- For positive counts, the result is the first point whose bandwidth is positive and whose next
  -- point has less than 5% more; points with a bandwidth of 0 or less are passed over. If no point of
  -- the sweep is such, the result is its last point.
  pub plateau_lem :
      (count : A → ℤ) (p : A) (ps : List A)
      → Positive count (p ∷ ps)
      → (q : A) × (plateau count (p ∷ ps) ≡ (count q, bandwidth q))
        × (IsPlateau (p ∷ ps) q ⊎ (Grows (p ∷ ps) × (back (p ∷ ps) ≡ some q)))
  unfolding plateau
  plateau_lem count p ps h = elim (find_plateau_lem (p ∷ ps)) [
    | inl (e, g) ↦ let (q, last) = back-some count p ps in (q, rw (e, last) refl, inr (g, last))
    | inr (q, e, t) ↦
        let (n, pos_q) =
          All-split (λ r. (n : ℕ) × (count r ≡ pos (suc n))) t.before q (t.next ∷ t.rest)
            (subst (All (λ r. (n : ℕ) × (count r ≡ pos (suc n)))) t.split h) in
        let positive : is_zero (count q) ≡ false = rw pos_q (ground arith) in
        (q, rw (e, positive) refl, inl t)
  ]
