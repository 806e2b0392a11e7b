-- ===== src/Cpu/Caches.antt =====
-- Which of the indices below /sys/devices/system/cpu/cpu0/cache decides on each cache size.
use llm_river.Base.Int.{ℤ}
use llm_river.Base.{
  ℕ, zero, suc, ◌+◌, Bool, true, false, ◌&&◌, Option, none, some, [], ◌∷◌, ◌++◌, ◌≡◌, refl, ◌∙◌,
  arith, if◌then◌else◌, Bytes, codes, str_eq, Bool-cases, inl, inr,
}
use llm_river.Cpu.{
  Files, trim, parse_cache_size, cache_dir, set_cache, is_empty, detect_cache, detect_caches_from,
  detect_caches, detect_hugepages, detect_isa, detect_cpu_info,
}
use llm_river.Report.Structs.{CpuInfo}

-- The texts of an index.
abbrev pub level_at : Files → ℕ → Bytes
level_at files idx = trim (files (cache_dir idx ++ codes "level"))

abbrev pub kind_at : Files → ℕ → Bytes
kind_at files idx = trim (files (cache_dir idx ++ codes "type"))

abbrev pub size_at : Files → ℕ → ℕ
size_at files idx = parse_cache_size (trim (files (cache_dir idx ++ codes "size")))

-- The last index that passes a test, of `left` indices from `idx` on.
abbrev pub last_index : (ℕ → Bool) → ℕ → ℕ → Option ℕ
last_index test zero idx = none
last_index test (suc left) idx = elim (last_index test left (idx + 1)) [
  | none ↦ if test idx then some idx else none
  | some later ↦ some later
]

-- The size at the last index of the eight that passes a test, and `def` if none does.
abbrev pub size_or : Files → ℕ → Option ℕ → ℕ
size_or files def none = def
size_or files def (some idx) = size_at files idx

module _ (files : Files) (field : CpuInfo → ℕ) (test : ℕ → Bool)
    (step : (idx : ℕ) (info : CpuInfo)
      → field (detect_cache files idx info)
        ≡ (if test idx then size_at files idx else field info)) where
  detect_caches_from_lem :
      (left idx : ℕ) (info : CpuInfo)
      → field (detect_caches_from files left idx info)
        ≡ size_or files (field info) (last_index test left idx)
  unfolding detect_caches_from
  detect_caches_from_lem zero idx info = refl
  detect_caches_from_lem (suc left) idx info =
      detect_caches_from_lem left (idx + 1) (detect_cache files idx info)
      ∙ here (last_index test left (idx + 1))
    where
      here :
          (found : Option ℕ)
          → size_or files (field (detect_cache files idx info)) found
            ≡ size_or files (field info) (elim found [
              | none ↦ if test idx then some idx else none
              | some later ↦ some later
            ])
      here (some later) = refl
      here none = elim (Bool-cases (test idx)) [
        | inl e ↦ rw e (step idx info ∙ decided e)
        | inr e ↦ rw e (step idx info ∙ decided' e)
      ]
        where
          decided :
              test idx ≡ true
              → (if test idx then size_at files idx else field info) ≡ size_at files idx
          decided e = rw e refl

          decided' :
              test idx ≡ false → (if test idx then size_at files idx else field info) ≡ field info
          decided' e = rw e refl

abbrev pub is_level : Files → Bytes → ℕ → Bool
is_level files level idx = str_eq (level_at files idx) level

abbrev pub is_l1d : Files → ℕ → Bool
is_l1d files idx =
    str_eq (level_at files idx) (codes "1") && str_eq (kind_at files idx) (codes "Data")

-- One index sets the field of its own level, if any.
cases :
    (level kind : Bytes) (bytes : ℕ) (info : CpuInfo)
    → let info' = (if is_empty level then info else set_cache level kind bytes info) in
      (info'.l1d_bytes_per_core ≡ (
        if str_eq level (codes "1") && str_eq kind (codes "Data")
        then bytes
        else info.l1d_bytes_per_core))
      × (info'.l2_bytes_per_core
          ≡ (if str_eq level (codes "2") then bytes else info.l2_bytes_per_core))
      × (info'.l3_bytes_total ≡ (if str_eq level (codes "3") then bytes else info.l3_bytes_total))
unfolding str_eq
cases [] kind bytes info = (refl, refl, refl)
cases (c ∷ []) kind bytes info = ground arith
cases (c ∷ d ∷ level) kind bytes info = ground arith

module _ (files : Files) (info : CpuInfo) where
  l1d_lem :
      (detect_caches files info).l1d_bytes_per_core
      ≡ size_or files info.l1d_bytes_per_core (last_index (is_l1d files) 8 0)
  unfolding detect_caches
  l1d_lem =
      detect_caches_from_lem files (λ i. i.l1d_bytes_per_core) (is_l1d files)
        (λ idx i.
          unfold detect_cache in
          (cases (level_at files idx) (kind_at files idx) (size_at files idx) i).0)
        8 0 info

  l2_lem :
      (detect_caches files info).l2_bytes_per_core
      ≡ size_or files info.l2_bytes_per_core (last_index (is_level files (codes "2")) 8 0)
  unfolding detect_caches
  l2_lem =
      detect_caches_from_lem files (λ i. i.l2_bytes_per_core) (is_level files (codes "2"))
        (λ idx i.
          unfold detect_cache in
          (cases (level_at files idx) (kind_at files idx) (size_at files idx) i).1)
        8 0 info

  l3_lem :
      (detect_caches files info).l3_bytes_total
      ≡ size_or files info.l3_bytes_total (last_index (is_level files (codes "3")) 8 0)
  unfolding detect_caches
  l3_lem =
      detect_caches_from_lem files (λ i. i.l3_bytes_total) (is_level files (codes "3"))
        (λ idx i.
          unfold detect_cache in
          (cases (level_at files idx) (kind_at files idx) (size_at files idx) i).2)
        8 0 info

if-field :
    (field : CpuInfo → ℕ) (b : Bool) (x y : CpuInfo) (v : ℕ)
    → field x ≡ v
    → field y ≡ v
    → field (if b then x else y) ≡ v
if-field field true x y v hx hy = hx
if-field field false x y v hx hy = hy

detect_hugepages-caches :
    (files : Files) (info : CpuInfo)
    → ((detect_hugepages files info).l1d_bytes_per_core ≡ info.l1d_bytes_per_core)
      × ((detect_hugepages files info).l2_bytes_per_core ≡ info.l2_bytes_per_core)
      × ((detect_hugepages files info).l3_bytes_total ≡ info.l3_bytes_total)
unfolding detect_hugepages
detect_hugepages-caches files info = (
  if-field (λ i. i.l1d_bytes_per_core) _ _ _ info.l1d_bytes_per_core refl refl,
  if-field (λ i. i.l2_bytes_per_core) _ _ _ info.l2_bytes_per_core refl refl,
  if-field (λ i. i.l3_bytes_total) _ _ _ info.l3_bytes_total refl refl,
)

-- The detection of the processor takes each cache size from the last index, of 0 to 7, that is of its
-- level, and for the first level also of type `Data`; it is 0 if there is none.
pub detect_cpu_info_lem :
    (files : Files) (supports : Bytes → Bool) (online : ℤ) (hardware : ℕ)
    → let info = detect_cpu_info files supports online hardware in
      (info.l1d_bytes_per_core ≡ size_or files 0 (last_index (is_l1d files) 8 0))
      × (info.l2_bytes_per_core ≡ size_or files 0 (last_index (is_level files (codes "2")) 8 0))
      × (info.l3_bytes_total ≡ size_or files 0 (last_index (is_level files (codes "3")) 8 0))
unfolding detect_cpu_info detect_isa
detect_cpu_info_lem files supports online hardware =
    let found = (detect_hugepages-caches files (detect_caches files _)) in
    (found.0 ∙ l1d_lem files _, found.1 ∙ l2_lem files _, found.2 ∙ l3_lem files _)
