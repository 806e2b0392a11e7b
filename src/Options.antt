-- ===== src/Options.antt =====
-- tools/roofline/src/main.cpp: the options. The map `kv` is an association list; the arguments are
-- those from `argv[start]` on.
pub mod Last
pub mod Numbers
use llm_river.Base.Int.{ℤ}
use llm_river.Base.{
  ℕ, suc, Bool, true, false, Option, none, some, List, [], ◌∷◌, if◌then◌else◌, Bytes, codes, str_eq,
}
use llm_river.Text.{drop, substr, starts_with, find_char, stol}

abbrev pub Map : Type 0
Map = List (Bytes × Bytes)

-- `kv.find(key)`
unfoldable pub lookup : Bytes → Map → Option Bytes
unfolding str_eq
lookup key [] = none
lookup key ((k, v) ∷ kv) = if str_eq k key then some v else lookup key kv

-- `kv[key] = value`
unfoldable pub assign : Bytes → Bytes → Map → Map
unfolding str_eq
assign key value [] = (key, value) ∷ []
assign key value ((k, v) ∷ kv) =
    if str_eq k key then (key, value) ∷ kv else (k, v) ∷ assign key value kv

pub record Options : Type 0 where
  pub kv : Map

-- `Options::get`
unfoldable pub get : Options → Bytes → Bytes → Bytes
unfolding lookup
get options key def = elim (lookup key options.kv) [ none ↦ def | some value ↦ value ]

abbrev or_default : ℤ → Option ℤ → ℤ
or_default def none = def
or_default def (some n) = n

-- `Options::get_long`
unfoldable pub get_long : Options → Bytes → ℤ → ℤ
unfolding lookup stol
get_long options key def = elim (lookup key options.kv) [
  | none ↦ def
  | some value ↦ or_default def (stol value)
]

-- `Options::has`
unfoldable pub has : Options → Bytes → Bool
unfolding lookup
has options key = elim (lookup key options.kv) [ none ↦ false | some value ↦ true ]

-- The key and the value of an argument without its two dashes.
unfoldable pub entry : Bytes → Bytes × Bytes
unfolding find_char
entry arg = elim (find_char b'=' arg) [
  | none ↦ (arg, codes "1")
  | some eq ↦ (substr arg 0 eq, drop (suc eq) arg)
]

-- The body of the loop.
unfoldable pub add_option : Bytes → Map → Map
unfolding starts_with entry assign
add_option arg kv =
    let (key, value) = entry (drop 2 arg) in
    if starts_with arg (codes "--") then assign key value kv else kv

unfoldable pub add_options : List Bytes → Map → Map
unfolding add_option
add_options [] kv = kv
add_options (arg ∷ args) kv = add_options args (add_option arg kv)

unfoldable pub parse_options : List Bytes → Options
unfolding add_options
parse_options args = record { kv = add_options args [] }
