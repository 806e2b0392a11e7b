-- ===== src/Chase/Cycle.antt =====
-- Cycles of a successor function, as chase.hpp means them: what a walk visits, and chains.
use llm_river.Base.Counting.{count, OnceBelow, count-append}
use llm_river.Base.{
  ℕ, zero, suc, ◌≤◌, ◌<◌, ◌≡◌, refl, ap, ◌⊎◌, inl, inr, List, [], ◌∷◌, ◌++◌, arith, ltb, ◌==◌,
  if◌then◌else◌, ==_iff, Bool-cases, length, length-append, All, ◌∙◌,
}

-- The nodes visited by `n` hops from `s`, the start included and the end left out.
unfoldable pub orbit : (ℕ → ℕ) → ℕ → ℕ → List ℕ
orbit f s zero = []
orbit f s (suc n) = s ∷ orbit f (f s) n

-- Where `n` hops from `s` lead.
unfoldable pub after : (ℕ → ℕ) → ℕ → ℕ → ℕ
after f s zero = s
after f s (suc n) = after f (f s) n

-- The hops from `x` lead through `zs`, one by one, and then to `y`.
abbrev pub Chain : (ℕ → ℕ) → ℕ → List ℕ → ℕ → Type 0
Chain f x [] y = f x ≡ y
Chain f x (z ∷ zs) y = (f x ≡ z) × Chain f z zs y

module _ (f : ℕ → ℕ) where
  pub orbit-Chain :
      (x : ℕ) (zs : List ℕ) (y : ℕ)
      → Chain f x zs y
      → (orbit f x (suc (length zs)) ≡ x ∷ zs) × (after f x (suc (length zs)) ≡ y)
  unfolding orbit after
  orbit-Chain x [] y h = (refl, h)
  orbit-Chain x (z ∷ zs) y (e, h) =
      let (p, q) = orbit-Chain z zs y h in
      (
        ap (λ t. x ∷ orbit f t (suc (length zs))) e ∙ ap (◌∷◌ x) p,
        ap (λ t. after f t (suc (length zs))) e ∙ q,
      )

  Chain-append :
      (x : ℕ) (zs : List ℕ) (y : ℕ) (ws : List ℕ) (v : ℕ)
      → Chain f x zs y
      → Chain f y ws v
      → Chain f x (zs ++ y ∷ ws) v
  Chain-append x [] y ws v h k = (h, k)
  Chain-append x (z ∷ zs) y ws v (e, h) k = (e, Chain-append z zs y ws v h k)

  -- A node of a chain splits it.
  Chain-split :
      (x : ℕ) (zs : List ℕ) (y s : ℕ)
      → Chain f x zs y
      → 1 ≤ count s (x ∷ zs)
      → (s ≡ x)
        ⊎ ((pre : List ℕ) × (post : List ℕ) × Chain f x pre s
            × Chain f s post y
            × (zs ≡ pre ++ s ∷ post))
  Chain-split x zs y s h c = elim (Bool-cases (s == x)) [
    | inl e ↦ inl ((==_iff s x).0 e)
    | inr e ↦ inr (later zs x h (omega (arith, rw e at c)))
  ]
    where
      later :
          (zs : List ℕ) (x : ℕ)
          → Chain f x zs y
          → 1 ≤ count s zs
          → (pre : List ℕ) × (post : List ℕ) × Chain f x pre s
            × Chain f s post y
            × (zs ≡ pre ++ s ∷ post)
      later [] x h c = absurd (omega arith)
      later (z ∷ zs) x (e, h) c = elim (Bool-cases (s == z)) [
        | inl t ↦ let same : s ≡ z = (==_iff s z).0 t in ([], zs, rw same e, rw same h, rw same)
        | inr t ↦
            let (pre, post, l, r, q) = later zs z h (omega (arith, rw t at c)) in
            (z ∷ pre, post, (e, l), r, ap (◌∷◌ z) q)
      ]

  -- A closed chain that holds every number below `n` once is walked whole from each of them.
  pub cycle_visits :
      (n x : ℕ) (zs : List ℕ) (s : ℕ)
      → Chain f x zs x
      → OnceBelow n (x ∷ zs)
      → suc (length zs) ≡ n
      → s < n
      → OnceBelow n (orbit f s n) × (after f s n ≡ s)
  cycle_visits n x zs s h once len lt = elim (Chain-split x zs x s h (ground (arith, once s))) [
    | inl e ↦ rw (e, ← len) (let (p, q) = orbit-Chain x zs x h in (λ a. rw p (rw len (once a)), q))
    | inr (pre, post, l, r, e) ↦
        let ws = post ++ x ∷ pre in
        let (p, q) = orbit-Chain s ws s (Chain-append s post x pre s r l) in
        let same_length : suc (length ws) ≡ n =
          omega
            (arith, len, ap length e, length-append pre (s ∷ post), length-append post (x ∷ pre)) in
        rw (← same_length) (
          λ a. rw p (
              rw same_length (
                omega (
                  arith,
                  once a,
                  ap (count a) e,
                  count-append pre (s ∷ post) a,
                  count-append post (x ∷ pre) a,
                ))),
          q,
        )
  ]

-- Two functions that agree on a chain's nodes.
pub Chain-congr :
    (f g : ℕ → ℕ) (n x : ℕ) (zs : List ℕ) (y : ℕ)
    → ((a : ℕ) → a < n → g a ≡ f a)
    → x < n
    → All (λ z. z < n) zs
    → Chain f x zs y
    → Chain g x zs y
Chain-congr f g n x [] y same hx _ h = same x hx ∙ h
Chain-congr f g n x (z ∷ zs) y same hx (hz, hs) (e, h) =
    (same x hx ∙ e, Chain-congr f g n z zs y same hz hs h)

pub All-lt :
    (n : ℕ) (xs : List ℕ)
    → ((a : ℕ) → count a xs ≤ (if ltb a n then 1 else 0))
    → All (λ z. z < n) xs
All-lt n [] h = tt
All-lt n (x ∷ xs) h = (ground (arith, h x), All-lt n xs (λ a. ground (arith, h a)))
