-- ===== src/Json/Parse/RoundTrip.antt =====
-- Every well-formed document is read back from its text.
use llm_river.Base.{
  ℕ, zero, suc, ◌≤◌, Bool, true, false, Option, some, [], ◌∷◌, ◌++◌, ◌≡◌, refl, ap, ◌∙◌, sym, arith,
  ◌==◌, Bytes, length, ==_iff, Bool-cases, inl, inr,
}
use llm_river.Json.Document.{
  Json, Items, Members, token, nil, cons, end, member, escaped, separator, render, render_items,
  render_members,
}
use llm_river.Json.Parse.{
  skip_separator, parse_value, parse_items, parse_members, IsToken, Stops, read_string-escaped,
  read_token-append, as_token-IsToken,
}
use llm_river.Json.Number.{is_token_char}
use llm_river.Json.Parse.WellFormed.{
  IsWellFormed, of_text, of_token, of_array, of_object, AreItems, no_items, more_items, AreMembers,
  no_members, more_members, size, size_items, size_members, size-le-length,
}

-- What a value's text begins with.
abbrev Begins : Bytes → Type 0
Begins s = (c : ℕ) × (cs : Bytes) × (s ≡ c ∷ cs) × ((c == b']') ≡ false) × ((c == b'}') ≡ false)

render-Begins : {v : Json} → IsWellFormed v → (rest : Bytes) → Begins (render v rest)
unfolding render
render-Begins (of_text {s} _) rest = (b'"', _, refl, refl, refl)
render-Begins (of_token {t = []} (ne, _, _)) rest = absurd (ne refl)
render-Begins (of_token {t = c ∷ t} (_, (h, _), _)) rest =
    (c, t ++ rest, refl, ground arith, ground arith)
render-Begins (of_array {xs} _) rest = (b'[', _, refl, refl, refl)
render-Begins (of_object {ms} _) rest = (b'{', _, refl, refl, refl)

Stops-items : (xs : Items) (rest : Bytes) → Stops (render_items true xs (b']' ∷ rest))
unfolding render_items
Stops-items nil rest = refl
Stops-items (cons x xs) rest = refl

Stops-members : (ms : Members) (rest : Bytes) → Stops (render_members true ms (b'}' ∷ rest))
unfolding render_members
Stops-members end rest = refl
Stops-members (member k x ms) rest = refl

token_char-ne : (c d : ℕ) → is_token_char c ≡ true → is_token_char d ≡ false → (c == d) ≡ false
token_char-ne c d hc hd = elim (Bool-cases (c == d)) [
  | inl e ↦
      let same : is_token_char c ≡ is_token_char d = ap is_token_char ((==_iff c d).0 e) in
      let clash : true ≡ false = sym hc ∙ same ∙ hd in cc clash
  | inr e ↦ e
]

parse_value-token :
    (f : ℕ) (t rest : Bytes)
    → IsToken t
    → Stops rest
    → parse_value (suc f) (t ++ rest) ≡ some (token t, rest)
unfolding parse_value
parse_value-token f [] rest (ne, _, _) s = absurd (ne refl)
parse_value-token f (c ∷ t) rest (ne, all, ok) s = rw (
  token_char-ne c b'"' all.0 refl,
  token_char-ne c b'[' all.0 refl,
  token_char-ne c b'{' all.0 refl,
  read_token-append (c ∷ t) rest all s,
  as_token-IsToken (c ∷ t) rest (ne, all, ok),
)

-- With an item before it, or its own beginning, a value is where the separator leaves it.
separator_lem :
    (more : Bool) {s : Bytes}
    → Begins s
    → (c : ℕ) × (cs : Bytes) × (separator more s ≡ c ∷ cs)
      × ((c == b']') ≡ false)
      × ((c == b'}') ≡ false)
      × (skip_separator more (c ∷ cs) ≡ some s)
separator_lem true {s} b = (b',', s, refl, refl, refl, refl)
separator_lem false {s} (c, cs, e, p, q) = (c, cs, e, p, q, ap some (sym e))

mutual
  unfolding size parse_value render

  parse_value-lem :
      {v : Json} (f : ℕ) (rest : Bytes)
      → IsWellFormed v
      → Stops rest
      → size v ≤ f
      → parse_value f (render v rest) ≡ some (v, rest)
  parse_value-lem zero rest (of_text {s} plain) st h = absurd (omega arith)
  parse_value-lem zero rest (of_token {t} ok) st h = absurd (omega arith)
  parse_value-lem zero rest (of_array {xs} ok) st h = absurd (omega arith)
  parse_value-lem zero rest (of_object {ms} ok) st h = absurd (omega arith)
  parse_value-lem (suc f) rest (of_text {s} plain) st h = rw (read_string-escaped s rest plain)
  parse_value-lem (suc f) rest (of_token {t} ok) st h = parse_value-token f t rest ok st
  parse_value-lem (suc f) rest (of_array {xs} ok) st h =
      rw (parse_items-lem f false rest ok (omega arith))
  parse_value-lem (suc f) rest (of_object {ms} ok) st h =
      rw (parse_members-lem f false rest ok (omega arith))

  parse_items-lem :
      {xs : Items} (f : ℕ) (more : Bool) (rest : Bytes)
      → AreItems xs
      → size_items xs ≤ f
      → parse_items f more (render_items more xs (b']' ∷ rest)) ≡ some (xs, rest)
  parse_items-lem zero more rest no_items h = absurd (omega arith)
  parse_items-lem zero more rest (more_items {x} {xs} ok oks) h = absurd (omega arith)
  parse_items-lem (suc f) more rest no_items h = refl
  parse_items-lem (suc f) more rest (more_items {x} {xs} ok oks) h =
      let after : Bytes = render_items true xs (b']' ∷ rest) in
      let (c, cs, e, not_end, _, skips) = separator_lem more (render-Begins ok after) in
      rw (
        e,
        not_end,
        skips,
        parse_value-lem f after ok (Stops-items xs rest) (omega arith),
        parse_items-lem f true rest oks (omega arith),
      )

  parse_members-lem :
      {ms : Members} (f : ℕ) (more : Bool) (rest : Bytes)
      → AreMembers ms
      → size_members ms ≤ f
      → parse_members f more (render_members more ms (b'}' ∷ rest)) ≡ some (ms, rest)
  parse_members-lem zero more rest no_members h = absurd (omega arith)
  parse_members-lem zero more rest (more_members {k} {x} {ms} plain ok oks) h = absurd (omega arith)
  parse_members-lem (suc f) more rest no_members h = refl
  parse_members-lem (suc f) more rest (more_members {k} {x} {ms} plain ok oks) h =
      let after : Bytes = render_members true ms (b'}' ∷ rest) in
      let tail : Bytes = escaped k ++ b'"' ∷ b':' ∷ render x after in
      let (c, cs, e, _, not_end, skips) =
        separator_lem more {s = b'"' ∷ tail} (b'"', tail, refl, refl, refl) in
      rw (
        e,
        not_end,
        skips,
        read_string-escaped k (b':' ∷ render x after) plain,
        parse_value-lem f after ok (Stops-members ms rest) (omega arith),
        parse_members-lem f true rest oks (omega arith),
      )

-- Reading a text, with its length for fuel.
unfoldable pub parse : Bytes → Option (Json × Bytes)
unfolding parse_value
parse s = parse_value (length s) s

pub parse-render :
    {v : Json} (rest : Bytes) → IsWellFormed v → Stops rest → parse (render v rest) ≡ some (v, rest)
unfolding parse
parse-render {v} rest ok st =
    parse_value-lem (length (render v rest)) rest ok st (omega (arith, size-le-length rest ok))
