-- ===== src/Json/Values.antt =====
-- Which document each `value` overload of `JsonWriter` writes.
use llm_river.Base.Decimal.{show_ℕ, show_ℤ}
use llm_river.Base.Int.{ℤ}
use llm_river.Base.{ℕ, Bool, ◌||◌, refl, if◌then◌else◌, Bytes, codes}
use llm_river.Float.{Float}
use llm_river.Json.Document.{text, token, render}
use llm_river.Json.Writes.{Writes, scalar-Writes, quoted-append}
use llm_river.Json.{
  scalar, value_string, value_int64, value_uint64, value_int, value_bool, value_double,
}

pub token-Writes : (t : Bytes) → Writes (scalar t) (token t)
unfolding render
token-Writes t = scalar-Writes t (token t) (λ rest. refl)

pub value_string-Writes : (s : Bytes) → Writes (value_string s) (text s)
unfolding value_string render
value_string-Writes s = scalar-Writes _ (text s) (quoted-append s)

pub value_int64-Writes : (v : ℤ) → Writes (value_int64 v) (token (show_ℤ v))
unfolding value_int64
value_int64-Writes v = token-Writes (show_ℤ v)

pub value_uint64-Writes : (v : ℕ) → Writes (value_uint64 v) (token (show_ℕ v))
unfolding value_uint64
value_uint64-Writes v = token-Writes (show_ℕ v)

pub value_int-Writes : (v : ℤ) → Writes (value_int v) (token (show_ℤ v))
unfolding value_int
value_int-Writes v = value_int64-Writes v

abbrev pub bool_text : Bool → Bytes
bool_text v = if v then codes "true" else codes "false"

pub value_bool-Writes : (v : Bool) → Writes (value_bool v) (token (bool_text v))
unfolding value_bool
value_bool-Writes v = token-Writes (bool_text v)

module _ {ℓ} {F : Type ℓ} (float : Float F) where
  -- A double that is no number is written as `null`.
  abbrev pub double_text : F → Bytes
  double_text v = if float.is_nan v || float.is_inf v then codes "null" else float.show v

  pub value_double-Writes : (v : F) → Writes (value_double float v) (token (double_text v))
  unfolding value_double
  value_double-Writes v = token-Writes (double_text v)
