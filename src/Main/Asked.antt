-- ===== src/Main/Asked.antt =====
-- The commands of tools/roofline/src/main.cpp and the benches that they ask for.
use llm_river.Base.{
  true, false, ◌≡◌, ◌≢◌, refl, ◌⊎◌, inl, inr, Bytes, codes, Bool-cases, str_eq, str_eq_iff, arith,
}
use llm_river.Main.{wants, is_command}

-- `all` asks for every bench, and a bench's own name for it alone.
abbrev pub Asks : Bytes → Bytes → Type 0
Asks cmd name = (cmd ≡ codes "all") ⊎ (cmd ≡ name)

-- One of the six commands.
pub data IsCommand (cmd : Bytes) : Type 0 where
  all : cmd ≡ codes "all" → IsCommand cmd
  ram : cmd ≡ codes "ram" → IsCommand cmd
  latency : cmd ≡ codes "latency" → IsCommand cmd
  disk : cmd ≡ codes "disk" → IsCommand cmd
  compute : cmd ≡ codes "compute" → IsCommand cmd
  hugepage : cmd ≡ codes "hugepage" → IsCommand cmd

pub is_command-IsCommand : (cmd : Bytes) → IsCommand cmd → is_command cmd ≡ true
unfolding is_command
is_command-IsCommand cmd (all e) = rw e refl
is_command-IsCommand cmd (ram e) = rw e refl
is_command-IsCommand cmd (latency e) = rw e refl
is_command-IsCommand cmd (disk e) = rw e refl
is_command-IsCommand cmd (compute e) = rw e refl
is_command-IsCommand cmd (hugepage e) = rw e refl

pub str_eq_ne : (a b : Bytes) → a ≢ b → str_eq a b ≡ false
str_eq_ne a b ne = elim (Bool-cases (str_eq a b)) [
  | inr e ↦ e
  | inl e ↦ absurd (ne ((str_eq_iff a b).0 e))
]

pub ne_of_str_eq : (a b : Bytes) → str_eq a b ≡ false → a ≢ b
ne_of_str_eq a b apart e = let same = (str_eq_iff a b).1 e in absurd (ground arith)

-- A bench is wanted exactly if the command asks for it.
pub wants_cases :
    (cmd name : Bytes)
    → ((wants cmd name ≡ true) × Asks cmd name)
      ⊎ ((wants cmd name ≡ false) × (cmd ≢ codes "all") × (cmd ≢ name))
wants_cases cmd name = elim (Bool-cases (str_eq cmd (codes "all"))) [
  | inl e ↦ inl (unfold wants in rw e refl, inl ((str_eq_iff cmd (codes "all")).0 e))
  | inr other ↦ elim (Bool-cases (str_eq cmd name)) [
    | inl e ↦ inl (unfold wants in rw (other, e) refl, inr ((str_eq_iff cmd name).0 e))
    | inr e ↦ inr (
      unfold wants in rw (other, e) refl,
      ne_of_str_eq cmd (codes "all") other,
      ne_of_str_eq cmd name e,
    )
  ]
]
