-- ===== src/Options/Numbers.antt =====
-- An option given as a decimal number is read as that number.
use llm_river.Base.Decimal.{show_ℕ}
use llm_river.Base.Int.{ℤ, pos}
use llm_river.Base.{
  ℕ, ◌^◌, ◌<◌, none, some, List, [], ◌∷◌, ◌++◌, ◌≡◌, refl, ap, ◌∙◌, sym, arith, Bytes, append-nil,
}
use llm_river.Options.Last.{IsKey, strip, value_of, value_behind, last_value, lookup-parse_options}
use llm_river.Options.{lookup, get_long, parse_options}
use llm_river.Text.Numbers.{stol-show_ℕ}
use llm_river.Text.{stol}

strip-append : (p s : Bytes) → strip p (p ++ s) ≡ some s
strip-append [] s = refl
strip-append (c ∷ p) s = ground (arith, strip-append p s)

last_value-append :
    (key : Bytes) (before : List Bytes) (arg v : Bytes) (after : List Bytes)
    → value_of key arg ≡ some v
    → last_value key after ≡ none
    → last_value key (before ++ arg ∷ after) ≡ some v
last_value-append key [] arg v after e quiet = rw (quiet, e) refl
last_value-append key (b ∷ before) arg v after e quiet =
    rw (last_value-append key before arg v after e quiet) refl

-- The argument `--key=n` in decimal, with no other for that key behind it, makes `get_long` return `n`,
-- whatever stands before it, provided that `n` fits a `long`. If no argument is for the key, `get_long`
-- returns the default.
pub get_long-show_ℕ :
    (key : Bytes) (def : ℤ) (n : ℕ) (before after : List Bytes)
    → IsKey key
    → n < 2 ^ 63
    → last_value key after ≡ none
    → (get_long (parse_options (before ++ (b'-' ∷ b'-' ∷ (key ++ b'=' ∷ show_ℕ n)) ∷ after)) key def
        ≡ pos n)
      × (get_long (parse_options after) key def ≡ def)
unfolding get_long
get_long-show_ℕ key def n before after is_key fits quiet =
    let given : value_of key (b'-' ∷ b'-' ∷ (key ++ b'=' ∷ show_ℕ n)) ≡ some (show_ℕ n) =
      ap value_behind (strip-append key (b'=' ∷ show_ℕ n)) in
    let args = before ++ (b'-' ∷ b'-' ∷ (key ++ b'=' ∷ show_ℕ n)) ∷ after in
    let last : lookup key (parse_options args).kv ≡ some (show_ℕ n) =
      lookup-parse_options key args is_key
      ∙ last_value-append key before _ (show_ℕ n) after given quiet in
    let number : stol (show_ℕ n) ≡ some (pos n) =
      ap stol (sym (append-nil (show_ℕ n))) ∙ stol-show_ℕ n [] tt fits in
    let absent : lookup key (parse_options after).kv ≡ none =
      lookup-parse_options key after is_key ∙ quiet in
    (rw (get_long, last, number) refl, rw (get_long, absent) refl)
