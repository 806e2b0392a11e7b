-- ===== src/Json/Parse.antt =====
-- A strict reader of JSON documents without blanks, and that it reads back what is rendered. It refuses a
-- control character in a string, a backslash in front of anything but a quote or a backslash, and what is no
-- number by RFC 8259 and none of `true`, `false` and `null`. Strings are read as bytes; whether those are
-- UTF-8 is not looked at.
pub mod WellFormed
pub mod RoundTrip
use llm_river.Base.{
  ℕ, zero, suc, ◌+◌, ◌≤◌, ◌<◌, Bool, true, false, not, ◌&&◌, ◌||◌, Option, none, some, List, [],
  ◌∷◌, ◌++◌, ◌≡◌, ◌≢◌, refl, ap, ◌∙◌, sym, arith, leb, ◌==◌, if◌then◌else◌, Bytes, All, ◌>>=◌,
  length, length-append, Bool-cases, inl, inr, ltb, str_eq, codes,
}
use llm_river.Json.Number.{is_token_char, is_number, number-chars}
use llm_river.Json.Document.{
  Json, Items, Members, text, token, array, object, nil, cons, end, member, escaped, separator,
  render, render_items, render_members,
}

abbrev push_front : ℕ → Option (Bytes × Bytes) → Option (Bytes × Bytes)
push_front c none = none
push_front c (some (s, rest)) = some (c ∷ s, rest)

-- No control character, which is one below 0x20.
abbrev pub is_plain : Bytes → Bool
is_plain [] = true
is_plain (c ∷ cs) = not (ltb c 0x20) && is_plain cs

abbrev pub IsPlain : Bytes → Type 0
IsPlain s = is_plain s ≡ true

pub IsPlain-cons : (c : ℕ) (cs : Bytes) → IsPlain (c ∷ cs) → (ltb c 0x20 ≡ false) × IsPlain cs
IsPlain-cons c cs h = elim (Bool-cases (ltb c 0x20)) [
  | inl e ↦ absurd (ground arith)
  | inr e ↦ (e, ground arith)
]

-- A string up to its closing quote, and what follows; the flag says that a backslash went before.
pub read_string : Bool → Bytes → Option (Bytes × Bytes)
read_string after [] = none
read_string after (c ∷ cs) =
    let plain = push_front c (read_string false cs) in
    let escape = read_string true cs in
    if after
    then (if c == b'"' || c == b'\\' then plain else none)
    else if c == b'"'
    then some ([], cs)
    else if c == b'\\'
    then escape
    else if ltb c 0x20
    then none
    else plain

-- The longest run of token characters, and what follows.
pub read_token : Bytes → Bytes × Bytes
read_token [] = ([], [])
read_token (c ∷ cs) =
    let (t, rest) = read_token cs in if is_token_char c then (c ∷ t, rest) else ([], c ∷ cs)

-- The rest of the text, if it begins with `c`.
abbrev pub expect : ℕ → Bytes → Option Bytes
expect c [] = none
expect c (d ∷ ds) = if c == d then some ds else none

abbrev pub skip_separator : Bool → Bytes → Option Bytes
skip_separator true s = expect b',' s
skip_separator false s = some s

-- A number, `true`, `false` or `null`.
unfoldable pub is_json_token : Bytes → Bool
unfolding is_number str_eq
is_json_token t =
    is_number t || str_eq t (codes "true") || str_eq t (codes "false") || str_eq t (codes "null")

pub as_token : Bytes × Bytes → Option (Json × Bytes)
unfolding is_json_token
as_token (t, rest) = if is_json_token t then some (token t, rest) else none

-- A value, the items up to `]`, and the members up to `}`. The flag says that an item went before.
-- `none` is a text that is no document, or too little fuel.
mutual
  unfolding read_string read_token as_token

  pub parse_value : ℕ → Bytes → Option (Json × Bytes)
  parse_value zero s = none
  parse_value (suc f) [] = none
  parse_value (suc f) (c ∷ cs) =
      let string : Option (Json × Bytes) = (do r ← read_string false cs; some (text r.0, r.1)) in
      let items : Option (Json × Bytes) = (do r ← parse_items f false cs; some (array r.0, r.1)) in
      let members : Option (Json × Bytes) = (do
        r ← parse_members f false cs
        some (object r.0, r.1)) in
      if c == b'"'
      then string
      else if c == b'['
      then items
      else if c == b'{'
      then members
      else as_token (read_token (c ∷ cs))

  pub parse_items : ℕ → Bool → Bytes → Option (Items × Bytes)
  parse_items zero more s = none
  parse_items (suc f) more [] = none
  parse_items (suc f) more (c ∷ cs) =
      let others : Option (Items × Bytes) = (do
        s ← skip_separator more (c ∷ cs)
        v ← parse_value f s
        vs ← parse_items f true v.1
        some (cons v.0 vs.0, vs.1)) in
      if c == b']' then some (nil, cs) else others

  pub parse_members : ℕ → Bool → Bytes → Option (Members × Bytes)
  parse_members zero more s = none
  parse_members (suc f) more [] = none
  parse_members (suc f) more (c ∷ cs) =
      let others : Option (Members × Bytes) = (do
        s ← skip_separator more (c ∷ cs)
        q ← expect b'"' s
        k ← read_string false q
        t ← expect b':' k.1
        v ← parse_value f t
        vs ← parse_members f true v.1
        some (member k.0 v.0 vs.0, vs.1)) in
      if c == b'}' then some (end, cs) else others

-- A token of JSON, which has token characters alone.
abbrev pub IsToken : Bytes → Type 0
IsToken t = (t ≢ []) × (All (λ c. is_token_char c ≡ true) t) × (is_json_token t ≡ true)

pub number-IsToken : (t : Bytes) → is_number t ≡ true → IsToken t
unfolding is_json_token is_number
number-IsToken [] h = cc
number-IsToken (c ∷ t) h = ((λ e. cc), number-chars (c ∷ t) h, rw h refl)

pub as_token-IsToken : (t rest : Bytes) → IsToken t → as_token (t, rest) ≡ some (token t, rest)
unfolding as_token
as_token-IsToken t rest (_, _, h) = rw (h, as_token) refl

-- A text that no token can go on into.
abbrev pub Stops : Bytes → Type 0
Stops [] = Unit
Stops (c ∷ cs) = is_token_char c ≡ false

pub read_string-escaped :
    (s rest : Bytes) → IsPlain s → read_string false (escaped s ++ b'"' ∷ rest) ≡ some (s, rest)
unfolding read_string escaped
read_string-escaped [] rest h = refl
read_string-escaped (c ∷ cs) rest h =
    let (shows, hs) = IsPlain-cons c cs h in ground (arith, read_string-escaped cs rest hs)

pub read_token-append :
    (t rest : Bytes)
    → All (λ c. is_token_char c ≡ true) t
    → Stops rest
    → read_token (t ++ rest) ≡ (t, rest)
unfolding read_token
read_token-append [] [] a s = refl
read_token-append [] (c ∷ cs) a s = rw s
read_token-append (c ∷ t) rest (h, hs) s = rw (h, read_token-append t rest hs s)
