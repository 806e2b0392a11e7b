-- ===== src/Tests/Asking.antt =====
-- The options of main.cpp and the detection of cpu_info.cpp on small texts.
use llm_river.Base.Decimal.{show_ℕ}
use llm_river.Base.Int.{pos, negsuc}
use llm_river.Base.{
  true, some, inl, List, [], ◌∷◌, ◌++◌, ◌≡◌, refl, arith, if◌then◌else◌, Bytes, codes, str_eq,
}
use llm_river.Cpu.Caches.{size_or, last_index, is_l1d, is_level, detect_cpu_info_lem}
use llm_river.Cpu.Sizes.{parse_cache_size-show_ℕ}
use llm_river.Cpu.Trim.{trim_lem, IsTight}
use llm_river.Cpu.{Files, trim, parse_cache_size, cache_dir, detect_cpu_info, model_name_in}
use llm_river.Options.Last.{last_value, parse_options_lem}
use llm_river.Options.Numbers.{get_long-show_ℕ}
use llm_river.Options.{get, get_long, has, parse_options}
use llm_river.Text.{lines, starts_with, find_char, find_first_not_of, find_last_not_of}

abbrev arguments : List Bytes
arguments =
    codes "--out=a.json"
    ∷ codes "out=b"
    ∷ codes "--outer=c"
    ∷ codes "--json"
    ∷ codes "--out=d=e"
    ∷ []

last_of_out : last_value (codes "out") arguments ≡ some (codes "d=e")
last_of_out = refl

parse_options_lem_example :
    (get (parse_options arguments) (codes "out") (codes "x") ≡ codes "d=e")
    × (has (parse_options arguments) (codes "out") ≡ true)
parse_options_lem_example =
    parse_options_lem arguments (codes "out") (codes "x") (refl, (refl, (refl, tt)))

get_long-show_ℕ_example :
    (get_long
        (parse_options
          (arguments ++ (b'-' ∷ b'-' ∷ (codes "ram-threads" ++ b'=' ∷ show_ℕ 12)) ∷ arguments))
        (codes "ram-threads")
        (negsuc 0)
      ≡ pos 12)
    × (get_long (parse_options arguments) (codes "ram-threads") (negsuc 0) ≡ negsuc 0)
get_long-show_ℕ_example =
    get_long-show_ℕ (codes "ram-threads") (negsuc 0) 12 arguments arguments (ground arith)
      (omega arith) refl

trim_lem_example :
    (trim (codes " \t" ++ (codes "a b" ++ codes "\n")) ≡ codes "a b") × (trim (codes " \t") ≡ [])
trim_lem_example =
    trim_lem (codes " \t") (codes "a b") (codes "\n") (refl, (refl, tt)) (refl, tt) tight
  where
    tight : IsTight (codes "a b")
    tight = record {
      first = b'a';
      behind = codes " b";
      begins = refl;
      first_shows = refl;
      front = codes "a ";
      last = b'b';
      ends = refl;
      last_shows = refl;
    }

parse_cache_size-show_ℕ_example :
    (parse_cache_size ([] ++ (show_ℕ 32 ++ b'K' ∷ [] ++ codes "\n")) ≡ 32768)
    × (parse_cache_size ([] ++ (show_ℕ 32 ++ codes "\n")) ≡ 32)
    × (parse_cache_size [] ≡ 0)
parse_cache_size-show_ℕ_example =
    parse_cache_size-show_ℕ [] (codes "\n") 32 b'K' 1024 tt (refl, tt) (omega arith)
      (inl (inl refl, refl))

model_name_of_two_lines :
    model_name_in (lines (codes "processor : 0\nmodel name\t: A b\nx")) ≡ codes "A b"
unfolding model_name_in lines starts_with find_char trim find_first_not_of find_last_not_of
model_name_of_two_lines = refl

abbrev no_files : Files
no_files path = if str_eq path (cache_dir 2 ++ codes "level") then codes "2\n" else []

detect_cpu_info_lem_example :
    let info = detect_cpu_info no_files (λ _. true) (pos 4) 8 in
    (info.l1d_bytes_per_core ≡ size_or no_files 0 (last_index (is_l1d no_files) 8 0))
    × (info.l2_bytes_per_core ≡ size_or no_files 0 (last_index (is_level no_files (codes "2")) 8 0))
    × (info.l3_bytes_total ≡ size_or no_files 0 (last_index (is_level no_files (codes "3")) 8 0))
detect_cpu_info_lem_example = detect_cpu_info_lem no_files (λ _. true) (pos 4) 8
