-- ===== src/Text.antt =====
-- The parts of `std::string` and of the number readers that tools/roofline/src uses: searches,
-- `substr`, `std::stoull` and `std::stol` in base ten. `none` is `npos`, or an exception.
pub mod Numbers
pub mod Lines
pub mod Search
pub mod Hex
use llm_river.Base.Int.{ℤ, pos, negsuc}
use llm_river.Base.{
  ℕ, zero, suc, ◌+◌, ◌-◌, ◌*◌, ◌^◌, ◌%◌, Bool, true, false, not, ◌&&◌, ◌||◌, Option, none, some,
  List, [], ◌∷◌, ltb, leb, ◌==◌, if◌then◌else◌, Bytes,
}

abbrev pub take : ℕ → Bytes → Bytes
take zero s = []
take (suc n) [] = []
take (suc n) (c ∷ cs) = c ∷ take n cs

abbrev pub drop : ℕ → Bytes → Bytes
drop zero s = s
drop (suc n) [] = []
drop (suc n) (c ∷ cs) = drop n cs

-- `s.substr(start, n)`, with `start` inside `s`
abbrev pub substr : Bytes → ℕ → ℕ → Bytes
substr s start n = take n (drop start s)

-- `s.rfind(prefix, 0) == 0`
unfoldable pub starts_with : Bytes → Bytes → Bool
starts_with s [] = true
starts_with [] (p ∷ ps) = false
starts_with (c ∷ cs) (p ∷ ps) = c == p && starts_with cs ps

-- `s.find(text) != npos`
unfoldable pub contains : Bytes → Bytes → Bool
unfolding starts_with
contains [] text = starts_with [] text
contains (c ∷ cs) text = starts_with (c ∷ cs) text || contains cs text

abbrev pub shift : Option ℕ → Option ℕ
shift none = none
shift (some i) = some (suc i)

-- `s.find(c)`
unfoldable pub find_char : ℕ → Bytes → Option ℕ
find_char d [] = none
find_char d (c ∷ cs) = if c == d then some 0 else shift (find_char d cs)

-- `s.find_first_not_of(set)`, the set being a test
unfoldable pub find_first_not_of : (ℕ → Bool) → Bytes → Option ℕ
find_first_not_of set [] = none
find_first_not_of set (c ∷ cs) = if set c then shift (find_first_not_of set cs) else some 0

abbrev pub shift_or : Bool → Option ℕ → Option ℕ
shift_or here none = if here then none else some 0
shift_or here (some i) = some (suc i)

-- `s.find_last_not_of(set)`
unfoldable pub find_last_not_of : (ℕ → Bool) → Bytes → Option ℕ
find_last_not_of set [] = none
find_last_not_of set (c ∷ cs) = shift_or (set c) (find_last_not_of set cs)

abbrev pub push_front : ℕ → List Bytes → List Bytes
push_front c [] = (c ∷ []) ∷ []
push_front c (l ∷ ls) = (c ∷ l) ∷ ls

-- The lines that `std::getline` reads, one after the other.
unfoldable pub lines : Bytes → List Bytes
lines [] = []
lines (c ∷ cs) = let rest = lines cs in if c == b'\n' then [] ∷ rest else push_front c rest

-- `std::isspace` in the C locale
abbrev pub is_space : ℕ → Bool
is_space c = c == b' ' || (leb 9 c && leb c 13)

abbrev pub is_digit : ℕ → Bool
is_digit c = leb b'0' c && leb c b'9'

-- The number that the digits at the front of a text spell behind `n`.
unfoldable pub leading_number : ℕ → Bytes → ℕ
leading_number n [] = n
leading_number n (c ∷ cs) = if is_digit c then leading_number (n * 10 + (c - b'0')) cs else n

-- The sign and the digits of a number's text, once the white space is skipped; `none` if no digit
-- stands there. The flag is true for a minus.
unfoldable pub unsigned_part : Bytes → Option ℕ
unfolding leading_number
unsigned_part [] = none
unsigned_part (c ∷ cs) = if is_digit c then some (leading_number 0 (c ∷ cs)) else none

abbrev pub with_sign : Bool → Option ℕ → Option (Bool × ℕ)
with_sign minus none = none
with_sign minus (some n) = some (minus, n)

unfoldable pub signed_part : Bytes → Option (Bool × ℕ)
unfolding unsigned_part
signed_part [] = none
signed_part (c ∷ cs) =
    if is_space c
    then signed_part cs
    else if c == b'-'
    then with_sign true (unsigned_part cs)
    else if c == b'+'
    then with_sign false (unsigned_part cs)
    else with_sign false (unsigned_part (c ∷ cs))

-- `std::stoull(s)`: what follows the digits is not looked at, and a minus negates in 64 bits.
unfoldable pub stoull : Bytes → Option ℕ
unfolding signed_part
stoull s = elim (signed_part s) [
  | none ↦ none
  | some (minus, n) ↦
      if ltb n (2 ^ 64) then some (if minus then (2 ^ 64 - n) % 2 ^ 64 else n) else none
]

abbrev negated : ℕ → ℤ
negated zero = pos 0
negated (suc n) = negsuc n

-- `std::stol(s)`, a `long` of 64 bits
unfoldable pub stol : Bytes → Option ℤ
unfolding signed_part
stol s = elim (signed_part s) [
  | none ↦ none
  | some (minus, n) ↦
      if minus
      then if leb n (2 ^ 63) then some (negated n) else none
      else if ltb n (2 ^ 63)
      then some (pos n)
      else none
]

-- What `in >> n` leaves in a `uint64_t`: 0 if no number stands there, and the largest if it is too large.
unfoldable pub extract_u64 : Bytes → ℕ
unfolding signed_part
extract_u64 s = elim (signed_part s) [
  | none ↦ 0
  | some (minus, n) ↦
      if ltb n (2 ^ 64) then (if minus then (2 ^ 64 - n) % 2 ^ 64 else n) else 2 ^ 64 - 1
]

-- The value of a hexadecimal digit.
abbrev pub hex_value : ℕ → Option ℕ
hex_value c =
    if is_digit c
    then some (c - b'0')
    else if leb b'a' c && leb c b'f'
    then some (c - b'a' + 10)
    else if leb b'A' c && leb c b'F'
    then some (c - b'A' + 10)
    else none

-- The number that the hexadecimal digits at the front of a text spell behind `n`.
unfoldable pub leading_hex : ℕ → Bytes → ℕ
leading_hex n [] = n
leading_hex n (c ∷ cs) = elim (hex_value c) [ none ↦ n | some d ↦ leading_hex (n * 16 + d) cs ]

-- The digits behind `0x`, if digits stand there, and from the front otherwise.
unfoldable pub hex_part : Bytes → ℕ
unfolding leading_hex
hex_part (z ∷ x ∷ d ∷ cs) = elim (hex_value d) [
  | none ↦ leading_hex 0 (z ∷ x ∷ d ∷ cs)
  | some v ↦
      if z == b'0' && (x == b'x' || x == b'X')
      then leading_hex 0 (d ∷ cs)
      else leading_hex 0 (z ∷ x ∷ d ∷ cs)
]
hex_part s = leading_hex 0 s

abbrev capped : Bool → ℕ → ℕ
capped minus n = if ltb n (2 ^ 64) then (if minus then (2 ^ 64 - n) % 2 ^ 64 else n) else 2 ^ 64 - 1

-- `std::strtoull(s, nullptr, 16)`
unfoldable pub strtoull_hex : Bytes → ℕ
unfolding hex_part
strtoull_hex [] = 0
strtoull_hex (c ∷ cs) =
    let spaced = strtoull_hex cs in
    if is_space c
    then spaced
    else if c == b'-'
    then capped true (hex_part cs)
    else if c == b'+'
    then capped false (hex_part cs)
    else capped false (hex_part (c ∷ cs))
