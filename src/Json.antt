-- ===== src/Json.antt =====
-- `class JsonWriter` of tools/roofline/src/util.hpp. The stream is the bytes written so far. A method
-- is an `Action`; `none` is `pop_back` on an empty `stack_`, which is undefined in C++.
pub mod Number
pub mod Document
pub mod Writes
pub mod Values
pub mod Parse
use llm_river.Base.Decimal.{show_ℕ, show_ℤ}
use llm_river.Base.Int.{ℤ}
use llm_river.Base.{
  ℕ, Bool, true, false, ◌||◌, Option, none, some, List, [], ◌∷◌, ◌++◌, ◌==◌, if◌then◌else◌, Bytes,
  codes, ◌>>=◌,
}
use llm_river.Float.{Float}

-- The last element of `stack_` stands first.
pub record Writer : Type 0 where
  pub out : Bytes
  pub stack : List Bool
  pub just_wrote_key : Bool

abbrev pub Action : Type 0
Action = Writer → Option Writer

infixl 5 ◌>>◌
unfoldable pub ◌>>◌ : Action → Action → Action
◌>>◌ a b w = a w >>= b

unfoldable pub skip : Action
skip w = some w

-- `if (test) …;`
unfoldable pub when : Bool → Action → Action
unfolding skip
when true a = a
when false a = skip

-- `explicit JsonWriter(std::ostream& out)`
abbrev pub new_writer : Bytes → Writer
new_writer out = record { out = out; stack = []; just_wrote_key = false }

-- `out_ << text`
abbrev pub put : Bytes → Writer → Writer
put text w = record w { out = w.out ++ text }

abbrev pub comma_if_needed_in : List Bool → Writer → Writer
comma_if_needed_in [] w = w
comma_if_needed_in (b ∷ rest) w = record (if b then put (b',' ∷ []) w else w) {
  stack = true ∷ rest;
}

unfoldable pub comma_if_needed : Writer → Writer
comma_if_needed w = comma_if_needed_in w.stack w

unfoldable pub before_value : Writer → Writer
unfolding comma_if_needed
before_value w = if w.just_wrote_key then record w { just_wrote_key = false } else comma_if_needed w

unfoldable pub escape : Bytes → Bytes
escape [] = []
escape (c ∷ cs) = (if c == b'"' || c == b'\\' then b'\\' ∷ c ∷ [] else c ∷ []) ++ escape cs

abbrev pub quoted : Bytes → Bytes
quoted s = b'"' ∷ (escape s ++ b'"' ∷ [])

unfoldable pub begin_object : Action
unfolding before_value
begin_object w =
    let w' = put (b'{' ∷ []) (before_value w) in some (record w' { stack = false ∷ w'.stack })

unfoldable pub begin_array : Action
unfolding before_value
begin_array w =
    let w' = put (b'[' ∷ []) (before_value w) in some (record w' { stack = false ∷ w'.stack })

abbrev pop_back : List Bool → Bytes → Writer → Option Writer
pop_back [] text w = none
pop_back (_ ∷ rest) text w = some (put text (record w { stack = rest }))

unfoldable pub end_object : Action
end_object w = pop_back w.stack (b'}' ∷ []) w

unfoldable pub end_array : Action
end_array w = pop_back w.stack (b']' ∷ []) w

unfoldable pub key : Bytes → Action
unfolding comma_if_needed
key k w = some (record (put (quoted k ++ b':' ∷ []) (comma_if_needed w)) { just_wrote_key = true })

-- A scalar: `before_value(); out_ << text;`
unfoldable pub scalar : Bytes → Action
unfolding before_value
scalar text w = some (put text (before_value w))

unfoldable pub value_string : Bytes → Action
unfolding scalar
value_string v = scalar (quoted v)

unfoldable pub value_int64 : ℤ → Action
unfolding scalar
value_int64 v = scalar (show_ℤ v)

unfoldable pub value_uint64 : ℕ → Action
unfolding scalar
value_uint64 v = scalar (show_ℕ v)

-- `value(static_cast<int64_t>(v))`
unfoldable pub value_int : ℤ → Action
unfolding value_int64
value_int v = value_int64 v

unfoldable pub value_bool : Bool → Action
unfolding scalar
value_bool v = scalar (if v then codes "true" else codes "false")

unfoldable pub null_value : Action
unfolding scalar
null_value = scalar (codes "null")

unfoldable pub kv_string : Bytes → Bytes → Action
unfolding key value_string ◌>>◌
kv_string k v = do key k; value_string v

unfoldable pub kv_int64 : Bytes → ℤ → Action
unfolding key value_int64 ◌>>◌
kv_int64 k v = do key k; value_int64 v

unfoldable pub kv_uint64 : Bytes → ℕ → Action
unfolding key value_uint64 ◌>>◌
kv_uint64 k v = do key k; value_uint64 v

unfoldable pub kv_int : Bytes → ℤ → Action
unfolding key value_int ◌>>◌
kv_int k v = do key k; value_int v

unfoldable pub kv_bool : Bytes → Bool → Action
unfolding key value_bool ◌>>◌
kv_bool k v = do key k; value_bool v

module _ {ℓ} {F : Type ℓ} (float : Float F) where
  open float use {is_nan, is_inf, show}

  unfoldable pub value_double : F → Action
  unfolding scalar
  value_double v = scalar (if is_nan v || is_inf v then codes "null" else show v)

  unfoldable pub kv_double : Bytes → F → Action
  unfolding key value_double ◌>>◌
  kv_double k v = do key k; value_double v
