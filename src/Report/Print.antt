-- ===== src/Report/Print.antt =====
-- The stream of `write_human` and `write_guidance` of tools/roofline/src/report.cpp, with the format that it
-- keeps for doubles. A double's print in fixed notation with two digits is a parameter, like its print by
-- default.
use llm_river.Base.Decimal.{show_ℕ, show_ℤ}
use llm_river.Base.Int.{ℤ}
use llm_river.Base.{ℕ, Bool, true, List, [], ◌∷◌, ◌++◌, if◌then◌else◌, Bytes, codes}
use llm_river.Float.{Float}
use Prim.Native.String.{String}

pub record Format {ℓ} (F : Type ℓ) : Type ℓ where
  pub float : Float F
  -- `out << v` after `std::fixed << std::setprecision(2)`
  pub show_fixed : F → Bytes

pub record Stream : Type 0 where
  pub text : Bytes
  pub fixed : Bool

-- What is printed with `<<`: `char const *`, `std::string`, `double`, `int`, an unsigned number, `bool`.
pub data Item {ℓ} (F : Type ℓ) : Type ℓ where
  chars : String → Item F
  string : Bytes → Item F
  double : F → Item F
  int : ℤ → Item F
  uint : ℕ → Item F
  bool : Bool → Item F

abbrev pub Printing : Type 0
Printing = Stream → Stream

infixl 5 ◌>>◌
unfoldable pub ◌>>◌ : Printing → Printing → Printing
(a >> b) out = b (a out)

unfoldable pub nothing : Printing
nothing out = out

unfoldable pub when : Bool → Printing → Printing
unfolding nothing
when b a = if b then a else nothing

-- `out << std::fixed << std::setprecision(2);`
unfoldable pub set_fixed : Printing
set_fixed out = record out { fixed = true }

module _ {ℓ} {F : Type ℓ} (format : Format F) where
  abbrev pub show_item : Bool → Item F → Bytes
  show_item fixed (chars s) = codes s
  show_item fixed (string s) = s
  show_item fixed (double v) = if fixed then format.show_fixed v else format.float.show v
  show_item fixed (int n) = show_ℤ n
  show_item fixed (uint n) = show_ℕ n
  show_item fixed (bool b) = if b then codes "1" else codes "0"

  -- A statement `out << a << b << …;`.
  unfoldable pub say : List (Item F) → Printing
  say [] out = out
  say (i ∷ items) out = say items (record out { text = out.text ++ show_item out.fixed i })

  -- On a stream of its own.
  unfoldable pub gbs : F → Bytes
  gbs v = format.show_fixed v ++ codes " GB/s"

  abbrev pub speed : F → Item F
  speed v = string (gbs v)

-- The bytes of the section sign, with what stands behind it.
abbrev pub section {ℓ} : {F : Type ℓ} → Item F
section = string (0xc2 ∷ 0xa7 ∷ [])
