-- ===== src/Ram/Progress.antt =====
-- No order of the threads' steps in `sweep` of tools/roofline/src/ram_bench.cpp goes on for ever or is stuck.
use mathlib.Core.Path.{subst}
use llm_river.Base.{
  ℕ, zero, suc, ◌+◌, ◌-◌, ◌<◌, ◌≤◌, true, false, List, ◌≡◌, ◌⊎◌, inl, inr, refl, ap, arith, ltb,
  ◌==◌, if◌then◌else◌, Bool-cases,
}
use llm_river.Clock.{Clock, TimeIsUp, sub_u64}
use llm_river.Ram.Threads.{
  Phase, waiting, looping, ended, Crew, put, first, after_pass, Step, store, begin, pass, Reach,
  IsOn, IsInOrder, Reach-IsInOrder,
}
use llm_river.Ram.Passes.{Kernel, Pass}

-- The steps that a thread has left at most, if its time is up at its reading `r + 1`.
abbrev pub phase_left : ℕ → Phase → ℕ
phase_left r waiting = r + 2
phase_left r (looping i s) = r + 2 - i
phase_left r (ended s) = 0

module _ (rounds : ℕ → ℕ) where
  abbrev pub threads_left : ℕ → (ℕ → Phase) → ℕ
  threads_left zero phases = 0
  threads_left (suc n) phases = phase_left (rounds n) (phases n) + threads_left n phases

  -- The steps that a crew of `n` has left.
  abbrev pub left : ℕ → Crew → ℕ
  left n c = (if c.go then 0 else 1) + threads_left n c.phases

  put_above :
      (n k : ℕ) (p : Phase) (phases : ℕ → Phase)
      → n ≤ k
      → threads_left n (put k p phases) ≡ threads_left n phases
  put_above zero k p phases h = refl
  put_above (suc n) k p phases h =
      let other : (n == k) ≡ false = ground arith in
      rw other
        (ap (λ m. phase_left (rounds n) (phases n) + m) (put_above n k p phases (omega arith)))

  threads_left-put :
      (n k : ℕ) (p : Phase) (phases : ℕ → Phase)
      → k < n
      → threads_left n (put k p phases) + phase_left (rounds k) (phases k)
        ≡ threads_left n phases + phase_left (rounds k) p
  threads_left-put zero k p phases h = elim h [ ]
  threads_left-put (suc n) k p phases h = elim (Bool-cases (n == k)) [
    | inl e ↦
        let same : k ≡ n = ground arith in
        let above = rw same at (put_above n k p phases (omega arith)) in
        rw e (rw same (omega (arith, above)))
    | inr e ↦ let rest = threads_left-put n k p phases (ground arith) in rw e (omega (arith, rest))
  ]

-- The first `n` threads have ended.
abbrev pub HaveEnded : ℕ → Crew → Type 0
HaveEnded n c = (k : ℕ) → k < n → (s : Pass) × (c.phases k ≡ ended s)

phase_cases :
    (p : Phase)
    → (p ≡ waiting) ⊎ (((i : ℕ) × (s : Pass) × (p ≡ looping i s)) ⊎ ((s : Pass) × (p ≡ ended s)))
phase_cases waiting = inl refl
phase_cases (looping i s) = inr (inl (i, s, refl))
phase_cases (ended s) = inr (inr (s, refl))

module _ (t : ℕ) (kind : Kernel) (clocks : ℕ → Clock) (duration_ns : ℕ) (bytes : ℕ → ℕ)
    (words : ℕ → List ℕ) (rounds : ℕ → ℕ)
    (ups : (k : ℕ) → TimeIsUp (clocks k) (clocks k 0) duration_ns 1 (rounds k)) where
  -- A thread that loops has not read the clock past its time.
  looping_early :
      (k i : ℕ) (s : Pass)
      → IsOn t kind clocks duration_ns bytes words k (looping i s)
      → i < rounds k + 2
  looping_early k i s (m, i_is, made, running) = elim (Bool-cases (ltb (rounds k) m)) [
    | inl e ↦ absurd (let early = running (rounds k) (ground arith) in let late = (ups k).up in cc)
    | inr e ↦ ground arith
  ]

  after_pass_left :
      (k i : ℕ) (s : Pass)
      → IsOn t kind clocks duration_ns bytes words k (looping i s)
      → phase_left (rounds k) (after_pass t kind clocks duration_ns bytes words k i s)
        < rounds k + 2 - i
  unfolding after_pass
  after_pass_left k i s on =
      let early = looping_early k i s on in
      elim (Bool-cases (ltb (sub_u64 (clocks k i) (clocks k 0)) duration_ns)) [
        | inl e ↦ rw e (omega (arith, early))
        | inr e ↦ rw e (omega (arith, early))
      ]

  Step-left :
      {c d : Crew}
      → Step t kind clocks duration_ns bytes words c d
      → IsInOrder t kind clocks duration_ns bytes words c
      → left rounds t d < left rounds t c
  Step-left (store c e) h = rw e (omega arith)
  Step-left (begin c k lt e w) h =
      let moved =
        threads_left-put rounds t k (looping 1 (first t kind clocks duration_ns bytes words k))
          c.phases lt in
      let was : phase_left (rounds k) (c.phases k) ≡ rounds k + 2 = ap (phase_left (rounds k)) w in
      omega (arith, moved, was)
  Step-left (pass c k i s lt e) h =
      let moved =
        threads_left-put rounds t k (after_pass t kind clocks duration_ns bytes words k i s)
          c.phases lt in
      let was : phase_left (rounds k) (c.phases k) ≡ rounds k + 2 - i =
        ap (phase_left (rounds k)) e in
      let less =
        after_pass_left k i s (subst (IsOn t kind clocks duration_ns bytes words k) e (h.on k)) in
      omega (arith, moved, was, less)

  some_go_on :
      (n : ℕ) (c : Crew)
      → n ≤ t
      → c.go ≡ true
      → HaveEnded n c ⊎ ((d : Crew) × Step t kind clocks duration_ns bytes words c d)
  some_go_on zero c h e = inl (λ k lt. absurd (omega arith))
  some_go_on (suc n) c h e = elim (some_go_on n c (omega arith) e) [
    | inr step ↦ inr step
    | inl done_below ↦ elim (phase_cases (c.phases n)) [
      | inl w ↦ inr (_, begin c n (omega arith) e w)
      | inr (inl (i, s, l)) ↦ inr (_, pass c n i s (omega arith) l)
      | inr (inr (s, l)) ↦ inl (all_ended c n s l done_below)
    ]
  ]
    where
      all_ended :
          (c : Crew) (n : ℕ) (s : Pass) → c.phases n ≡ ended s → HaveEnded n c → HaveEnded (suc n) c
      all_ended c n s l below k lt = elim (Bool-cases (k == n)) [
        | inl e ↦ let same : k ≡ n = ground arith in rw same (s, l)
        | inr e ↦ below k (ground arith)
      ]

  -- With the time of every thread up at some reading, in every crew that the threads can reach: each step of a
  -- thread leaves fewer steps to go, and if one of the `t` threads has not ended, there is a step.
  pub Reach-left :
      (c : Crew)
      → Reach t kind clocks duration_ns bytes words c
      → ((d : Crew)
          → Step t kind clocks duration_ns bytes words c d
          → left rounds t d < left rounds t c)
        × (HaveEnded t c ⊎ ((d : Crew) × Step t kind clocks duration_ns bytes words c d))
  Reach-left c reached =
      let order = Reach-IsInOrder t kind clocks duration_ns bytes words reached in
      (λ d step. Step-left step order, go_on (Bool-cases c.go))
    where
      go_on :
          (c.go ≡ true) ⊎ (c.go ≡ false)
          → HaveEnded t c ⊎ ((d : Crew) × Step t kind clocks duration_ns bytes words c d)
      go_on (inl e) = some_go_on t c (omega arith) e
      go_on (inr e) = inr (_, store c e)
