-- ===== src/Cpu.antt =====
-- tools/roofline/src/cpu_info.cpp: what the machine says of itself. A file's text is a parameter, empty
-- where the file cannot be read, as `read_file` gives it; so are the answers of the processor.
pub mod Trim
pub mod Sizes
pub mod Caches
use mathlib.Core.List.{map}
use llm_river.Base.Decimal.{show_ℕ}
use llm_river.Base.Int.{ℤ, pos, ltb_ℤ, to_i32}
use llm_river.Base.{
  ℕ, zero, suc, ◌+◌, ◌-◌, ◌*◌, ◌^◌, ◌%◌, Bool, true, false, ◌&&◌, ◌||◌, Option, none, some, List,
  [], ◌∷◌, ◌++◌, ltb, ◌==◌, if◌then◌else◌, Bytes, codes, str_eq,
}
use llm_river.Plateau.{back}
use llm_river.Report.Structs.{CpuInfo, new_cpu_info}
use llm_river.Text.{
  drop, substr, starts_with, contains, find_char, find_first_not_of, find_last_not_of, lines,
  stoull,
}

-- The files, by their path.
abbrev pub Files : Type 0
Files = Bytes → Bytes

-- The characters of " \t\r\n"
abbrev pub is_blank : ℕ → Bool
is_blank c = c == b' ' || c == b'\t' || c == b'\r' || c == b'\n'

abbrev trim_from : Bytes → ℕ → Option ℕ → Bytes
trim_from s a none = []
trim_from s a (some b) = substr s a (b - a + 1)

unfoldable pub trim : Bytes → Bytes
unfolding find_first_not_of find_last_not_of
trim s = elim (find_first_not_of is_blank s) [
  | none ↦ []
  | some a ↦ trim_from s a (find_last_not_of is_blank s)
]

-- `s.pop_back()`
abbrev pub without_last : Bytes → Bytes
without_last [] = []
without_last (c ∷ []) = []
without_last (c ∷ d ∷ cs) = c ∷ without_last (d ∷ cs)

-- The multiplier that a last character stands for; `none` for a character that is no suffix.
abbrev pub multiplier : ℕ → Option ℕ
multiplier c =
    if c == b'K' || c == b'k'
    then some 1024
    else if c == b'M' || c == b'm'
    then some (1024 * 1024)
    else none

abbrev bytes_of : Option ℕ → ℕ → ℕ
bytes_of none mult = 0
bytes_of (some n) mult = n * mult % 2 ^ 64

abbrev size_of : Bytes → Option ℕ → ℕ
size_of s none = bytes_of (stoull s) 1
size_of s (some mult) = bytes_of (stoull (without_last s)) mult

-- `s` has been trimmed.
abbrev size_by_suffix : Bytes → Option ℕ → ℕ
size_by_suffix s none = 0
size_by_suffix s (some c) = size_of s (multiplier c)

unfoldable pub parse_cache_size : Bytes → ℕ
unfolding trim back
parse_cache_size raw = let s = trim raw in size_by_suffix s (back s)

unfoldable pub model_name_in : List Bytes → Bytes
unfolding starts_with find_char trim
model_name_in [] = codes "unknown"
model_name_in (line ∷ rest) =
    let later = model_name_in rest in
    let here : Bytes = elim (find_char b':' line) [
      | none ↦ later
      | some at ↦ trim (drop (at + 1) line)
    ] in
    if starts_with line (codes "model name") then here else later

unfoldable pub model_name_from_proc_cpuinfo : Files → Bytes
unfolding lines model_name_in
model_name_from_proc_cpuinfo files = model_name_in (lines (files (codes "/proc/cpuinfo")))

abbrev pub cache_dir : ℕ → Bytes
cache_dir idx =
    codes "/sys/devices/system/cpu/cpu0/cache/" ++ codes "index" ++ show_ℕ idx ++ codes "/"

-- What the texts of one cache set, the level not being empty.
abbrev pub set_cache : Bytes → Bytes → ℕ → CpuInfo → CpuInfo
set_cache level kind bytes info =
    if str_eq level (codes "1") && str_eq kind (codes "Data")
    then record info { l1d_bytes_per_core = bytes }
    else if str_eq level (codes "2")
    then record info { l2_bytes_per_core = bytes }
    else if str_eq level (codes "3")
    then record info { l3_bytes_total = bytes }
    else info

abbrev is_empty : Bytes → Bool
is_empty [] = true
is_empty (c ∷ cs) = false

-- The body of the loop over `idx`.
unfoldable pub detect_cache : Files → ℕ → CpuInfo → CpuInfo
unfolding trim parse_cache_size
detect_cache files idx info =
    let level = trim (files (cache_dir idx ++ codes "level")) in
    let kind = trim (files (cache_dir idx ++ codes "type")) in
    let size = trim (files (cache_dir idx ++ codes "size")) in
    if is_empty level then info else set_cache level kind (parse_cache_size size) info

-- The caches from `idx` on, `left` of them.
unfoldable pub detect_caches_from : Files → ℕ → ℕ → CpuInfo → CpuInfo
unfolding detect_cache
detect_caches_from files zero idx info = info
detect_caches_from files (suc left) idx info =
    detect_caches_from files left (idx + 1) (detect_cache files idx info)

unfoldable pub detect_caches : Files → CpuInfo → CpuInfo
unfolding detect_caches_from
detect_caches files info = detect_caches_from files 8 0 info

abbrev is_positive : Option ℕ → Bool
is_positive none = false
is_positive (some n) = ltb 0 n

unfoldable pub detect_hugepages : Files → CpuInfo → CpuInfo
unfolding trim contains stoull
detect_hugepages files info =
    let thp = files (codes "/sys/kernel/mm/transparent_hugepage/enabled") in
    let info' = record info {
      thp_available = contains thp (codes "[always]") || contains thp (codes "[madvise]");
    } in
    let free = trim (files (codes "/sys/kernel/mm/hugepages/hugepages-2048kB/free_hugepages")) in
    if is_empty free then info' else record info' { hugetlb_available = is_positive (stoull free) }

-- On x86, built by GCC 10 or later or Clang; `supports` is `__builtin_cpu_supports`.
unfoldable pub detect_isa : (Bytes → Bool) → CpuInfo → CpuInfo
detect_isa supports info = record info {
  has_avx2 = supports (codes "avx2");
  has_avx512f = supports (codes "avx512f");
  has_avx512bw = supports (codes "avx512bw");
  has_avx512vnni = supports (codes "avx512vnni");
  has_avx512_bf16 = supports (codes "avx512bf16");
}

-- `online` is `sysconf(_SC_NPROCESSORS_ONLN)`, and `hardware` is
-- `std::thread::hardware_concurrency()`.
unfoldable pub detect_cpu_info : Files → (Bytes → Bool) → ℤ → ℕ → CpuInfo
unfolding model_name_from_proc_cpuinfo detect_caches detect_hugepages detect_isa
detect_cpu_info files supports online hardware =
    let info = record new_cpu_info {
      model_name = model_name_from_proc_cpuinfo files;
      logical_cpus = if ltb_ℤ (pos 0) online then to_i32 online else to_i32 (pos hardware);
    } in
    detect_isa supports (detect_hugepages files (detect_caches files info))
