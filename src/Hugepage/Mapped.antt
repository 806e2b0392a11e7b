-- ===== src/Hugepage/Mapped.antt =====
-- The mappings of `run_hugepage_bench` of tools/roofline/src/hugepage_bench.cpp.
use llm_river.Base.{
  ℕ, true, ◌&&◌, Option, none, some, List, [], ◌∷◌, ◌++◌, ◌≡◌, refl, arith, ◌==◌, if◌then◌else◌,
  Bool-cases, inl, inr,
}
use llm_river.Hugepage.{MapCall, mmap, munmap, unmap}

-- Which mappings are left after some calls: `munmap` of an address and its size takes one away.
abbrev pub without : ℕ → ℕ → List (ℕ × ℕ) → List (ℕ × ℕ)
without addr size [] = []
without addr size ((a, s) ∷ maps) =
    if a == addr && s == size then maps else (a, s) ∷ without addr size maps

abbrev pub left_mapped : List MapCall → List (ℕ × ℕ) → List (ℕ × ℕ)
left_mapped [] maps = maps
left_mapped (mmap size none ∷ calls) maps = left_mapped calls maps
left_mapped (mmap size (some addr) ∷ calls) maps = left_mapped calls ((addr, size) ∷ maps)
left_mapped (munmap addr size ∷ calls) maps = left_mapped calls (without addr size maps)

equal_self : (n : ℕ) → (n == n) ≡ true
equal_self n = ground arith

pub all_unmapped :
    (size : ℕ) (base_mem huge_mem : Option ℕ)
    → left_mapped
        (mmap size base_mem ∷ mmap size huge_mem ∷ (unmap size base_mem ++ unmap size huge_mem))
        []
      ≡ []
all_unmapped size none none = refl
all_unmapped size none (some huge) = rw (equal_self size, equal_self huge) refl
all_unmapped size (some base) none = rw (equal_self size, equal_self base) refl
all_unmapped size (some base) (some huge) = elim (Bool-cases (huge == base)) [
  | inl e ↦ let e' : (base == huge) ≡ true = ground arith in rw (e, equal_self size) (ground arith)
  | inr e ↦ rw (e, equal_self size, equal_self base, equal_self huge) refl
]
