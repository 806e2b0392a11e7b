-- ===== src/Ram/Steps.antt =====
-- The thread counts of a sweep: `thread_steps` of tools/roofline/src/ram_bench.cpp.
use mathlib.Core.Path.{subst}
use llm_river.Base.Int.{ltb_ℤ, pos, negsuc}
use llm_river.Base.{
  All, Ascends, ℕ, zero, suc, ◌-◌, ◌≤◌, ◌<◌, true, false, List, [], ◌∷◌, ◌++◌, ◌≡◌, refl, ap, ◌∙◌,
  sym, arith, ltb, ◌==◌, if◌then◌else◌, Bool-cases, inl, inr, ==_iff,
}
use llm_river.Plateau.{back}
use llm_river.Ram.{candidates, up_to, lacks, thread_steps}

-- The last step is `max_threads`, unless it is there already.
closed_by : ℕ → List ℕ → List ℕ
closed_by m steps = if lacks m (back steps) then steps ++ m ∷ [] else steps

closed_by-cons :
    (m c : ℕ) (steps : List ℕ) → c < m → closed_by m (c ∷ steps) ≡ c ∷ closed_by m steps
unfolding closed_by back
closed_by-cons m c [] h = ground arith
closed_by-cons m c (d ∷ steps) h = elim (Bool-cases (lacks m (back (d ∷ steps)))) [
  | inl e ↦ rw e
  | inr e ↦ rw e
]

closed_by_self : (m : ℕ) → closed_by m (m ∷ []) ≡ m ∷ []
unfolding closed_by back
closed_by_self m = ground arith

-- The candidates below `m`.
abbrev pub below : ℕ → List ℕ → List ℕ
below m [] = []
below m (c ∷ cs) = if ltb c m then c ∷ below m cs else below m cs

up_to_above : (m lo : ℕ) (cs : List ℕ) → Ascends lo cs → m ≤ lo → up_to (pos m) cs ≡ []
unfolding up_to
up_to_above m lo [] a h = refl
up_to_above m lo (c ∷ cs) (lt, a) h = ground (arith, up_to_above m c cs a)

below_above : (m lo : ℕ) (cs : List ℕ) → Ascends lo cs → m ≤ lo → below m cs ≡ []
below_above m lo [] a h = refl
below_above m lo (c ∷ cs) (lt, a) h = ground (arith, below_above m c cs a)

up_to_kept : (m c : ℕ) (cs : List ℕ) → c ≤ m → up_to (pos m) (c ∷ cs) ≡ c ∷ up_to (pos m) cs
unfolding up_to
up_to_kept m c cs h = ground arith

closed_by_reached :
    (m c : ℕ) (cs : List ℕ) → Ascends c cs → m ≤ c → closed_by m (up_to (pos m) (c ∷ cs)) ≡ m ∷ []
closed_by_reached m c cs a h = elim (Bool-cases (c == m)) [
  | inl e ↦
      let same : c ≡ m = (==_iff c m).0 e in
      ap (closed_by m) (up_to_kept m c cs (omega arith) ∙ ap (◌∷◌ c) (up_to_above m c cs a h))
      ∙ ap (λ x. closed_by m (x ∷ [])) same
      ∙ closed_by_self m
  | inr e ↦
      let lt : m < c = ground arith in
      ap (closed_by m) (up_to_above m (c - 1) (c ∷ cs) (omega arith, a) (omega arith))
      ∙ unfold closed_by back in refl
]

closed_by-up_to :
    (m lo : ℕ) (cs : List ℕ) → Ascends lo cs → closed_by m (up_to (pos m) cs) ≡ below m cs ++ m ∷ []
closed_by-up_to m lo [] a = unfold closed_by back up_to in refl
closed_by-up_to m lo (c ∷ cs) (lt, a) = elim (Bool-cases (ltb c m)) [
  | inl e ↦
      let less : c < m = ground arith in
      ap (closed_by m) (up_to_kept m c cs (omega arith))
      ∙ closed_by-cons m c (up_to (pos m) cs) less
      ∙ ap (◌∷◌ c) (closed_by-up_to m c cs a)
      ∙ rw e refl
  | inr e ↦
      let reached : m ≤ c = ground arith in
      closed_by_reached m c cs a reached ∙ rw (e, below_above m c cs a reached) refl
]

Ascends-below :
    (m lo : ℕ) (cs : List ℕ) → Ascends lo cs → lo < m → Ascends lo (below m cs ++ m ∷ [])
Ascends-below m lo [] a h = (h, tt)
Ascends-below m lo (c ∷ cs) (lt, a) h = elim (Bool-cases (ltb c m)) [
  | inl e ↦ rw e (lt, Ascends-below m c cs a (ground arith))
  | inr e ↦ rw (e, below_above m c cs a (ground arith)) (h, tt)
]

thread_steps-closed_by :
    (m : ℕ) → thread_steps (pos (suc m)) ≡ closed_by (suc m) (up_to (pos (suc m)) candidates)
unfolding thread_steps closed_by
thread_steps-closed_by m =
    let positive : ltb_ℤ (pos 0) (pos (suc m)) ≡ true = ground arith in rw positive refl

up_to_negative : (m : ℕ) (cs : List ℕ) → up_to (negsuc m) cs ≡ []
unfolding up_to
up_to_negative m [] = refl
up_to_negative m (c ∷ cs) = ground (arith, up_to_negative m cs)

thread_steps_negative : (m : ℕ) → thread_steps (negsuc m) ≡ []
unfolding thread_steps
thread_steps_negative m =
    let negative : ltb_ℤ (pos 0) (negsuc m) ≡ false = ground arith in
    rw (up_to_negative m candidates, negative) refl

-- For a positive `max_threads` the steps are the candidates below it, in order, and then
-- `max_threads` itself, so they ascend strictly. For any other there are no steps.
pub thread_steps_lem :
    (m : ℕ)
    → (thread_steps (pos (suc m)) ≡ below (suc m) candidates ++ suc m ∷ [])
      × Ascends 0 (thread_steps (pos (suc m)))
      × (thread_steps (pos 0) ≡ [])
      × (thread_steps (negsuc m) ≡ [])
unfolding thread_steps
thread_steps_lem m =
    let ascending : Ascends 0 candidates = omega arith in
    let spelled : thread_steps (pos (suc m)) ≡ below (suc m) candidates ++ suc m ∷ [] =
      thread_steps-closed_by m ∙ closed_by-up_to (suc m) 0 candidates ascending in
    (
      spelled,
      subst (Ascends 0) (sym spelled) (Ascends-below (suc m) 0 candidates ascending (omega arith)),
      refl,
      thread_steps_negative m,
    )

below-le : (m : ℕ) (cs : List ℕ) → All (λ t. t ≤ m) (below m cs ++ m ∷ [])
below-le m [] = omega arith
below-le m (c ∷ cs) = elim (Bool-cases (ltb c m)) [
  | inl e ↦ rw e (ground arith, below-le m cs)
  | inr e ↦ rw e (below-le m cs)
]

pub thread_steps-le : (m : ℕ) → All (λ t. t ≤ m) (thread_steps (pos m))
thread_steps-le zero = rw ((thread_steps_lem 0).2) tt
thread_steps-le (suc m) = rw ((thread_steps_lem m).0) (below-le (suc m) candidates)
