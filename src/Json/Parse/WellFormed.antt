-- ===== src/Json/Parse/WellFormed.antt =====
-- The documents that a text can hold, and how much fuel reading them takes.
use Prim.Native.Nat.{max}
use llm_river.Base.{
  ℕ, ◌+◌, ◌≤◌, Bool, true, false, [], ◌∷◌, ◌++◌, refl, arith, Bytes, length, length-append,
}
use llm_river.Json.Document.{
  Json, Items, Members, text, token, array, object, nil, cons, end, member, escaped, separator,
  render, render_items, render_members,
}
use llm_river.Json.Parse.{IsToken, IsPlain}

-- Documents whose tokens are tokens of JSON, and whose strings have no control characters.
mutual
  pub data IsWellFormed : Json → Type 0 where
    of_text : {s : Bytes} → IsPlain s → IsWellFormed (text s)
    of_token : {t : Bytes} → IsToken t → IsWellFormed (token t)
    of_array : {xs : Items} → AreItems xs → IsWellFormed (array xs)
    of_object : {ms : Members} → AreMembers ms → IsWellFormed (object ms)

  pub data AreItems : Items → Type 0 where
    no_items : AreItems nil
    more_items : {x : Json} {xs : Items} → IsWellFormed x → AreItems xs → AreItems (cons x xs)

  pub data AreMembers : Members → Type 0 where
    no_members : AreMembers end
    more_members :
        {k : Bytes} {x : Json} {ms : Members}
        → IsPlain k
        → IsWellFormed x
        → AreMembers ms
        → AreMembers (member k x ms)

-- How deep the reader's calls go on a document.
unfoldable mutual
  pub size : Json → ℕ
  size (text s) = 1
  size (token t) = 1
  size (array xs) = 1 + size_items xs
  size (object ms) = 1 + size_members ms

  pub size_items : Items → ℕ
  size_items nil = 1
  size_items (cons x xs) = 1 + max (size x) (size_items xs)

  pub size_members : Members → ℕ
  size_members end = 1
  size_members (member k x ms) = 1 + max (size x) (size_members ms)

mutual
  unfolding size

  size-pos : (v : Json) → 1 ≤ size v
  size-pos (text s) = omega arith
  size-pos (token t) = omega arith
  size-pos (array xs) = omega arith
  size-pos (object ms) = omega arith

  size_items-pos : (xs : Items) → 1 ≤ size_items xs
  size_items-pos nil = omega arith
  size_items-pos (cons x xs) = omega arith

  size_members-pos : (ms : Members) → 1 ≤ size_members ms
  size_members-pos end = omega arith
  size_members-pos (member k x ms) = omega arith

length-separator : (more : Bool) (s : Bytes) → length s ≤ length (separator more s)
length-separator true s = omega arith
length-separator false s = omega arith

-- The text of a document is long enough to be fuel for reading it.
mutual
  unfolding size render

  pub size-le-length :
      {v : Json} (rest : Bytes) → IsWellFormed v → size v + length rest ≤ length (render v rest)
  size-le-length rest (of_text {s} _) = omega (arith, length-append (escaped s) (b'"' ∷ rest))
  size-le-length rest (of_token {t = []} (ne, _, _)) = absurd (ne refl)
  size-le-length rest (of_token {t = c ∷ t} _) = omega (arith, length-append t rest)
  size-le-length rest (of_array ok) = omega (arith, size_items-le-length false rest ok)
  size-le-length rest (of_object ok) = omega (arith, size_members-le-length false rest ok)

  size_items-le-length :
      {xs : Items} (more : Bool) (rest : Bytes)
      → AreItems xs
      → size_items xs + length rest ≤ length (render_items more xs (b']' ∷ rest))
  size_items-le-length more rest no_items = omega arith
  size_items-le-length more rest (more_items {x} {xs} ok oks) =
      let after : Bytes = render_items true xs (b']' ∷ rest) in
      omega (
        arith,
        size-pos x,
        size_items-pos xs,
        size-le-length after ok,
        size_items-le-length true rest oks,
        length-separator more (render x after),
      )

  size_members-le-length :
      {ms : Members} (more : Bool) (rest : Bytes)
      → AreMembers ms
      → size_members ms + length rest ≤ length (render_members more ms (b'}' ∷ rest))
  size_members-le-length more rest no_members = omega arith
  size_members-le-length more rest (more_members {k} {x} {ms} _ ok oks) =
      let after : Bytes = render_members true ms (b'}' ∷ rest) in
      let quoted : Bytes = escaped k ++ b'"' ∷ b':' ∷ render x after in
      omega (
        arith,
        size-pos x,
        size_members-pos ms,
        size-le-length after ok,
        size_members-le-length true rest oks,
        length-append (escaped k) (b'"' ∷ b':' ∷ render x after),
        length-separator more (b'"' ∷ quoted),
      )
