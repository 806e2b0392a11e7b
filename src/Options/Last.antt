-- ===== src/Options/Last.antt =====
-- Of an option given several times, the last one counts.
use llm_river.Base.{
  ℕ, suc, Bool, true, false, Option, none, some, List, [], ◌∷◌, ◌≡◌, refl, ap, ◌∙◌, sym, arith,
  ◌==◌, if◌then◌else◌, Bytes, codes, str_eq, str_eq_iff, All, Bool-cases, inl, inr,
}
use llm_river.Options.{Map, lookup, assign, get, has, entry, add_option, add_options, parse_options}
use llm_river.Text.{drop, take, starts_with, find_char, shift}

-- What is left of a text behind a prefix.
abbrev pub strip : Bytes → Bytes → Option Bytes
strip [] s = some s
strip (p ∷ ps) [] = none
strip (p ∷ ps) (c ∷ cs) = if c == p then strip ps cs else none

abbrev pub value_behind : Option Bytes → Option Bytes
value_behind none = none
value_behind (some []) = some (codes "1")
value_behind (some (c ∷ v)) = if c == b'=' then some v else none

-- The value that an argument gives to `key`: that of `--key` is 1, and that of `--key=value` is `value`.
abbrev pub value_of : Bytes → Bytes → Option Bytes
value_of key arg = value_behind (strip (b'-' ∷ b'-' ∷ key) arg)

abbrev pub over : Option Bytes → Option Bytes → Option Bytes
over none old = old
over (some v) old = some v

-- The value that the last argument for `key` gives it.
abbrev pub last_value : Bytes → List Bytes → Option Bytes
last_value key [] = none
last_value key (arg ∷ args) = over (last_value key args) (value_of key arg)

-- The keys that an option can have.
abbrev pub IsKey : Bytes → Type 0
IsKey = All (λ c. (c == b'=') ≡ false)

differs : (a b c : Bytes) → str_eq a c ≡ true → str_eq a b ≡ false → str_eq b c ≡ false
differs a b c same other = elim (Bool-cases (str_eq b c)) [
  | inl e ↦
      let equal : str_eq a b ≡ true =
        (str_eq_iff a b).1 ((str_eq_iff a c).0 same ∙ sym ((str_eq_iff b c).0 e)) in
      cc
  | inr e ↦ e
]

lookup-assign :
    (key k v : Bytes) (kv : Map)
    → lookup key (assign k v kv) ≡ (if str_eq k key then some v else lookup key kv)
unfolding lookup assign
lookup-assign key k v [] = refl
lookup-assign key k v ((k', v') ∷ kv) = elim (Bool-cases (str_eq k' k)) [
  | inl e ↦
      let same : k' ≡ k = (str_eq_iff k' k).0 e in
      rw e
        (elim (Bool-cases (str_eq k key)) [ inl t ↦ rw t refl | inr t ↦ rw (t, same) (rw t refl) ])
  | inr e ↦ rw e (elim (Bool-cases (str_eq k' key)) [
    | inl t ↦ let other : str_eq k key ≡ false = differs k' k key t e in rw (t, other) refl
    | inr t ↦ rw t (lookup-assign key k v kv)
  ])
]

-- The same key and value, read off without a search.
split_key : Bytes → Bytes × Bytes
split_key [] = ([], codes "1")
split_key (c ∷ cs) = if c == b'=' then ([], cs) else (c ∷ (split_key cs).0, (split_key cs).1)

entry_at : Bytes → Option ℕ → Bytes × Bytes
entry_at arg none = (arg, codes "1")
entry_at arg (some eq) = (take eq arg, drop (suc eq) arg)

entry_at-find_char : (arg : Bytes) → entry_at arg (find_char b'=' arg) ≡ split_key arg
unfolding find_char split_key entry_at
entry_at-find_char [] = refl
entry_at-find_char (c ∷ cs) = elim (Bool-cases (c == b'=')) [
  | inl e ↦ rw e refl
  | inr e ↦ rw e (behind (find_char b'=' cs) (entry_at-find_char cs))
]
  where
    behind :
        (found : Option ℕ)
        → entry_at cs found ≡ split_key cs
        → entry_at (c ∷ cs) (shift found) ≡ (c ∷ (split_key cs).0, (split_key cs).1)
    behind none h = ap (λ e. (c ∷ e.0, e.1)) h
    behind (some eq) h = ap (λ e. (c ∷ e.0, e.1)) h

entry-split_key : (arg : Bytes) → entry arg ≡ split_key arg
unfolding entry entry_at
entry-split_key arg = opened (find_char b'=' arg) ∙ entry_at-find_char arg
  where
    opened :
        (found : Option ℕ)
        → elim found [ none ↦ (arg, codes "1") | some eq ↦ (take eq arg, drop (suc eq) arg) ]
          ≡ entry_at arg found
    opened none = refl
    opened (some eq) = refl

strip-split_key :
    (key arg : Bytes)
    → IsKey key
    → value_behind (strip key arg)
      ≡ (if str_eq (split_key arg).0 key then some (split_key arg).1 else none)
unfolding split_key str_eq
strip-split_key [] [] h = refl
strip-split_key [] (c ∷ cs) h = ground arith
strip-split_key (p ∷ ps) [] h = refl
strip-split_key (p ∷ ps) (c ∷ cs) (h, hs) = ground (arith, strip-split_key ps cs hs)

-- One argument sets its key, and no other.
lookup-add_option :
    (key arg : Bytes) (kv : Map)
    → IsKey key
    → lookup key (add_option arg kv) ≡ over (value_of key arg) (lookup key kv)
unfolding add_option starts_with
lookup-add_option key [] kv h = refl
lookup-add_option key (c ∷ []) kv h = ground arith
lookup-add_option key (c ∷ d ∷ arg) kv h = elim (Bool-cases (c == b'-')) [
  | inr e ↦ rw e refl
  | inl e ↦ elim (Bool-cases (d == b'-')) [
    | inr e' ↦ rw (e, e') refl
    | inl e' ↦
        rw (e, e', entry-split_key arg, strip-split_key key arg h)
          (lookup-assign key (split_key arg).0 (split_key arg).1 kv
            ∙ settled (str_eq (split_key arg).0 key))
  ]
]
  where
    settled :
        (b : Bool)
        → (if b then some (split_key arg).1 else lookup key kv)
          ≡ over (if b then some (split_key arg).1 else none) (lookup key kv)
    settled true = refl
    settled false = refl

over_assoc : (a b c : Option Bytes) → over a (over b c) ≡ over (over a b) c
over_assoc none b c = refl
over_assoc (some v) b c = refl

lookup-add_options :
    (key : Bytes) (args : List Bytes) (kv : Map)
    → IsKey key
    → lookup key (add_options args kv) ≡ over (last_value key args) (lookup key kv)
unfolding add_options
lookup-add_options key [] kv h = refl
lookup-add_options key (arg ∷ args) kv h =
    lookup-add_options key args (add_option arg kv) h
    ∙ ap (over (last_value key args)) (lookup-add_option key arg kv h)
    ∙ over_assoc (last_value key args) (value_of key arg) (lookup key kv)

pub lookup-parse_options :
    (key : Bytes) (args : List Bytes)
    → IsKey key
    → lookup key (parse_options args).kv ≡ last_value key args
unfolding parse_options
lookup-parse_options key args h = lookup-add_options key args [] h ∙ alone (last_value key args)
  where
    alone : (o : Option Bytes) → over o (lookup key []) ≡ o
    alone none = unfold lookup in refl
    alone (some v) = refl

abbrev pub or_value : Bytes → Option Bytes → Bytes
or_value def none = def
or_value def (some v) = v

abbrev pub is_some : Option Bytes → Bool
is_some none = false
is_some (some v) = true

-- Of the arguments for a key without `=`, the last one counts: its value is what `get` returns, `1` for
-- a bare `--key`, and `has` tells whether there is one. Other arguments, and those that do not begin
-- with two dashes, change nothing.
pub parse_options_lem :
    (args : List Bytes) (key def : Bytes)
    → IsKey key
    → (get (parse_options args) key def ≡ or_value def (last_value key args))
      × (has (parse_options args) key ≡ is_some (last_value key args))
unfolding get has
parse_options_lem args key def h =
    let found = lookup-parse_options key args h in
    (rw (get, found) (got (last_value key args)), rw (has, found) (had (last_value key args)))
  where
    got : (o : Option Bytes) → elim o [ none ↦ def | some value ↦ value ] ≡ or_value def o
    got none = refl
    got (some v) = refl

    had : (o : Option Bytes) → elim o [ none ↦ false | some value ↦ true ] ≡ is_some o
    had none = refl
    had (some v) = refl
