-- ===== src/Ram/Threads.antt =====
-- The threads of one step of `sweep` of tools/roofline/src/ram_bench.cpp in any order of their passes. They share
-- the flag `go`; each has its own buffer and its own readings of the clock.
use mathlib.Core.Path.{subst}
use llm_river.Base.{
  ℕ, zero, suc, ◌+◌, ◌<◌, Bool, true, false, List, ◌≡◌, refl, sym, ap, ◌∙◌, arith, ltb, ◌==◌,
  if◌then◌else◌, Bool-cases, inl, inr,
}
use llm_river.Clock.{Clock, TimeIsUp, sub_u64, repeat}
use llm_river.Ram.Passes.{Kernel, Pass, kernel_pass}

-- Where a thread is: it spins on `go`; its kernel is in the loop, before a reading of the clock; or it has ended.
pub data Phase : Type 0 where
  waiting : Phase
  looping : ℕ → Pass → Phase
  ended : Pass → Phase

pub record Crew : Type 0 where
  pub go : Bool
  pub phases : ℕ → Phase

abbrev pub put : ℕ → Phase → (ℕ → Phase) → ℕ → Phase
put k p phases j = if j == k then p else phases j

-- Before `go.store(true)`.
abbrev pub ready : Crew
ready = record { go = false; phases = λ k. waiting }

module _ (t : ℕ) (kind : Kernel) (clocks : ℕ → Clock) (duration_ns : ℕ) (bytes : ℕ → ℕ)
    (words : ℕ → List ℕ) where
  abbrev pub first : ℕ → Pass
  first k = record { words = words k; sum = 0; passes = 0 }

  abbrev pub body : ℕ → Pass → Pass
  body k = kernel_pass kind (bytes k) 0x1234

  -- A pass of thread `k`, and its reading `i` of the clock behind it.
  unfoldable pub after_pass : ℕ → ℕ → Pass → Phase
  unfolding kernel_pass sub_u64
  after_pass k i s =
      if ltb (sub_u64 (clocks k i) (clocks k 0)) duration_ns
      then looping (i + 1) (body k s)
      else ended (body k s)

  -- `go.store(true)`; a thread that sees it takes its start; and a pass of a thread.
  pub data Step : Crew → Crew → Type 0 where
    store : (c : Crew) → c.go ≡ false → Step c (record c { go = true })
    begin :
        (c : Crew) (k : ℕ)
        → k < t
        → c.go ≡ true
        → c.phases k ≡ waiting
        → Step c (record c { phases = put k (looping 1 (first k)) c.phases })
    pass :
        (c : Crew) (k i : ℕ) (s : Pass)
        → k < t
        → c.phases k ≡ looping i s
        → Step c (record c { phases = put k (after_pass k i s) c.phases })

  pub data Reach : Crew → Type 0 where
    here : Reach ready
    next : {c d : Crew} → Reach c → Step c d → Reach d

  -- A thread that loops has made as many passes as it has read the clock, and none of the readings was past the
  -- duration; one that has ended has made one pass more than those readings.
  abbrev pub IsOn : ℕ → Phase → Type 0
  IsOn k waiting = Unit
  IsOn k (looping i s) =
      (m : ℕ) × (i ≡ 1 + m)
      × (s ≡ repeat m (body k) (first k))
      × ((j : ℕ) → j < m → ltb (sub_u64 (clocks k (1 + j)) (clocks k 0)) duration_ns ≡ true)
  IsOn k (ended s) =
      (m : ℕ) × (s ≡ repeat (suc m) (body k) (first k))
      × TimeIsUp (clocks k) (clocks k 0) duration_ns 1 m

  put-All :
      (P : ℕ → Phase → Type 0) (k : ℕ) (p : Phase) (phases : ℕ → Phase)
      → P k p
      → ((j : ℕ) → P j (phases j))
      → (j : ℕ) → P j (put k p phases j)
  put-All P k p phases mine others j = elim (Bool-cases (j == k)) [
    | inr e ↦ rw e (others j)
    | inl e ↦ let same : j ≡ k = ground arith in rw e (rw same mine)
  ]

  repeat_last : (f : Pass → Pass) (m : ℕ) (s : Pass) → repeat (suc m) f s ≡ f (repeat m f s)
  repeat_last f zero s = refl
  repeat_last f (suc m) s = repeat_last f m (f s)

  one_more_running :
      (k m : ℕ)
      → ((j : ℕ) → j < m → ltb (sub_u64 (clocks k (1 + j)) (clocks k 0)) duration_ns ≡ true)
      → ltb (sub_u64 (clocks k (1 + m)) (clocks k 0)) duration_ns ≡ true
      → (j : ℕ) → j < suc m
      → ltb (sub_u64 (clocks k (1 + j)) (clocks k 0)) duration_ns ≡ true
  one_more_running k m running last j lt = elim (Bool-cases (j == m)) [
    | inl e ↦ let same : j ≡ m = ground arith in rw same last
    | inr e ↦ running j (ground arith)
  ]

  after_pass-IsOn : (k i : ℕ) (s : Pass) → IsOn k (looping i s) → IsOn k (after_pass k i s)
  unfolding after_pass
  after_pass-IsOn k i s (m, i_is, made, running) =
      let one_more : body k s ≡ repeat (suc m) (body k) (first k) =
        ap (body k) made ∙ sym (repeat_last (body k) m (first k)) in
      elim (Bool-cases (ltb (sub_u64 (clocks k i) (clocks k 0)) duration_ns)) [
        | inl e ↦
            rw e (suc m, omega (arith, i_is), one_more, one_more_running k m running (rw i_is at e))
        | inr e ↦ rw e (m, one_more, record { running = running; up = rw i_is at e })
      ]

  -- What holds whenever the threads are looked at: each is where its own passes have taken it, and before `go`
  -- is set none has begun.
  pub record IsInOrder (c : Crew) : Type 0 where
    pub on : (k : ℕ) → IsOn k (c.phases k)
    pub barrier : c.go ≡ false → (k : ℕ) → c.phases k ≡ waiting

  Step-IsInOrder : {c d : Crew} → Step c d → IsInOrder c → IsInOrder d
  Step-IsInOrder (store c e₀) h = record { on = h.on; barrier = λ e. absurd (ground arith) }
  Step-IsInOrder (begin c k lt e w) h = record {
    on =
        put-All IsOn k (looping 1 (first k)) c.phases
          (0, refl, refl, λ j none_yet. absurd (omega arith)) h.on;
    barrier = λ e'. absurd (ground arith);
  }
  Step-IsInOrder (pass c k i s lt e) h = record {
    on =
        put-All IsOn k (after_pass k i s) c.phases
          (after_pass-IsOn k i s (subst (IsOn k) e (h.on k))) h.on;
    barrier = λ e'. absurd (let idle = h.barrier e' k in cc);
  }

  -- In whatever order the threads make their steps, no thread has begun before `go` is set, and each has made
  -- the passes that its own readings of the clock allow, on its own buffer.
  pub Reach-IsInOrder : {c : Crew} → Reach c → IsInOrder c
  Reach-IsInOrder here = record { on = λ k. tt; barrier = λ e k. refl }
  Reach-IsInOrder (next r s) = Step-IsInOrder s (Reach-IsInOrder r)
