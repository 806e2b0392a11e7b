-- ===== src/Text/Search.antt =====
-- Searches and parts of a text that is put together.
use llm_river.Base.{
  ℕ, suc, ◌+◌, true, false, none, some, [], ◌∷◌, ◌++◌, ◌≡◌, refl, ap, arith, ◌==◌, Bytes, All,
  length,
}
use llm_river.Text.{take, drop, find_char, starts_with}

pub drop-length : (a t : Bytes) → drop (length a) (a ++ t) ≡ t
drop-length [] t = refl
drop-length (x ∷ a) t = drop-length a t

-- What stands behind a character that follows `a`.
pub drop_behind : (a : Bytes) (c : ℕ) (t : Bytes) → drop (length a + 1) (a ++ c ∷ t) ≡ t
drop_behind [] c t = refl
drop_behind (x ∷ a) c t =
    let e : suc (length a) + 1 ≡ suc (length a + 1) = omega arith in rw e (drop_behind a c t)

pub take-length : (m b : Bytes) → take (length m) (m ++ b) ≡ m
take-length [] b = refl
take-length (x ∷ m) b = ap (◌∷◌ x) (take-length m b)

abbrev pub Lacks : ℕ → Bytes → Type 0
Lacks d = All (λ c. (c == d) ≡ false)

pub find_char-append :
    (d : ℕ) (p rest : Bytes) → Lacks d p → find_char d (p ++ d ∷ rest) ≡ some (length p)
unfolding find_char
find_char-append d [] rest h = ground arith
find_char-append d (c ∷ p) rest (h, hs) = rw (h, find_char-append d p rest hs) refl

pub find_char-none : (d : ℕ) (s : Bytes) → Lacks d s → find_char d s ≡ none
unfolding find_char
find_char-none d [] h = refl
find_char-none d (c ∷ s) (h, hs) = rw (h, find_char-none d s hs) refl

pub starts_with-append : (p rest : Bytes) → starts_with (p ++ rest) p ≡ true
unfolding starts_with
starts_with-append [] rest = go rest
  where
    go : (s : Bytes) → starts_with s [] ≡ true
    go [] = refl
    go (c ∷ s) = refl
starts_with-append (c ∷ p) rest = ground (arith, starts_with-append p rest)
