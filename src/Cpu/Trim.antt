-- ===== src/Cpu/Trim.antt =====
-- `trim` takes the blanks off both ends of a text.
use llm_river.Cpu.{is_blank, trim}
use llm_river.Base.{
  ℕ, ◌+◌, ◌-◌, true, false, none, some, [], ◌∷◌, ◌++◌, ◌≡◌, refl, ap, ◌∙◌, sym, arith, Bytes, All,
  length, length-append, append_assoc,
}
use llm_river.Text.Search.{drop-length, take-length}
use llm_river.Text.{find_first_not_of, find_last_not_of}

abbrev pub AreBlank : Bytes → Type 0
AreBlank = All (λ c. is_blank c ≡ true)

-- A text that begins and ends with a character that is no blank.
pub record IsTight (s : Bytes) : Type 0 where
  pub first : ℕ
  pub behind : Bytes
  pub begins : s ≡ first ∷ behind
  pub first_shows : is_blank first ≡ false
  pub front : Bytes
  pub last : ℕ
  pub ends : s ≡ front ++ last ∷ []
  pub last_shows : is_blank last ≡ false

find_first_lem :
    (a : Bytes) (c : ℕ) (t : Bytes)
    → AreBlank a
    → is_blank c ≡ false
    → find_first_not_of is_blank (a ++ c ∷ t) ≡ some (length a)
unfolding find_first_not_of
find_first_lem [] c t h shows = rw shows refl
find_first_lem (x ∷ a) c t (h, hs) shows = rw (h, find_first_lem a c t hs shows) refl

find_first_none : (a : Bytes) → AreBlank a → find_first_not_of is_blank a ≡ none
unfolding find_first_not_of
find_first_none [] h = refl
find_first_none (x ∷ a) (h, hs) = rw (h, find_first_none a hs) refl

find_last_none : (b : Bytes) → AreBlank b → find_last_not_of is_blank b ≡ none
unfolding find_last_not_of
find_last_none [] h = refl
find_last_none (x ∷ b) (h, hs) = rw (find_last_none b hs, h) refl

find_last_lem :
    (p : Bytes) (d : ℕ) (b : Bytes)
    → AreBlank b
    → is_blank d ≡ false
    → find_last_not_of is_blank (p ++ d ∷ b) ≡ some (length p)
unfolding find_last_not_of
find_last_lem [] d b h shows = rw (find_last_none b h, shows) refl
find_last_lem (x ∷ p) d b h shows = rw (find_last_lem p d b h shows) refl

-- Between blanks, `trim` finds a text that begins and ends with no blank; of nothing but blanks it
-- leaves nothing.
pub trim_lem :
    (a m b : Bytes)
    → AreBlank a
    → AreBlank b
    → IsTight m
    → (trim (a ++ (m ++ b)) ≡ m) × (trim a ≡ [])
unfolding trim
trim_lem a m b ha hb t =
    let whole : a ++ (m ++ b) ≡ a ++ t.first ∷ (t.behind ++ b) = ap (λ x. a ++ (x ++ b)) t.begins in
    let from : find_first_not_of is_blank (a ++ (m ++ b)) ≡ some (length a) =
      ap (find_first_not_of is_blank) whole
      ∙ find_first_lem a t.first (t.behind ++ b) ha t.first_shows in
    let parts : a ++ (m ++ b) ≡ (a ++ t.front) ++ t.last ∷ b =
      ap (λ x. a ++ (x ++ b)) t.ends
      ∙ ap (λ x. a ++ x) (append_assoc t.front (t.last ∷ []) b)
      ∙ sym (append_assoc a t.front (t.last ∷ b)) in
    let upto : find_last_not_of is_blank (a ++ (m ++ b)) ≡ some (length (a ++ t.front)) =
      ap (find_last_not_of is_blank) parts
      ∙ find_last_lem (a ++ t.front) t.last b hb t.last_shows in
    let size : length (a ++ t.front) - length a + 1 ≡ length m =
      omega
        (arith, length-append a t.front, ap length t.ends, length-append t.front (t.last ∷ [])) in
    (
      rw (trim, from, upto, size, drop-length a (m ++ b)) (take-length m b),
      rw (trim, find_first_none a ha) refl,
    )
