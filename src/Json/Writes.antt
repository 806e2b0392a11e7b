-- ===== src/Json/Writes.antt =====
-- What a sequence of `JsonWriter` calls writes, as rules that follow the shape of the calls. Each
-- rule is about every state of the writer in which the calls may stand.
pub mod Nested
use mathlib.Core.Path.{fun_ext}
use llm_river.Base.{
  Option-cases, inl, inr, Bool, true, false, some, List, [], ◌∷◌, ◌++◌, append_assoc, ◌≡◌, refl, ap,
  ◌∙◌, arith, if◌then◌else◌, Bytes,
}
use llm_river.Json.Document.{
  Json, Items, Members, array, object, nil, cons, end, member, escaped, separator, render,
  render_items, render_members,
}
use llm_river.Json.{
  Writer, Action, ◌>>◌, skip, when, put, quoted, comma_if_needed, comma_if_needed_in, before_value,
  escape, begin_object, begin_array, end_object, end_array, key, scalar,
}

-- The action writes one value, after whatever separator the state asks for.
pub record Writes (a : Action) (v : Json) : Type 0 where
  pub run :
      (w : Writer)
      → (w' : Writer) × (a w ≡ some w')
        × (w'.stack ≡ (before_value w).stack)
        × (w'.just_wrote_key ≡ false)
        × ((rest : Bytes) → w'.out ++ rest ≡ (before_value w).out ++ render v rest)

-- Inside an object, the action writes members and closes it.
pub record Completes (a : Action) (ms : Members) : Type 0 where
  pub run :
      (w : Writer) (more : Bool) (below : List Bool)
      → w.stack ≡ more ∷ below
      → w.just_wrote_key ≡ false
      → (w' : Writer) × (a w ≡ some w')
        × (w'.stack ≡ below)
        × (w'.just_wrote_key ≡ false)
        × ((rest : Bytes) → w'.out ++ rest ≡ w.out ++ render_members more ms (b'}' ∷ rest))

-- Inside an array, the action writes items.
pub record Fills (a : Action) (xs : Items) : Type 0 where
  pub run :
      (w : Writer) (more : Bool) (below : List Bool)
      → w.stack ≡ more ∷ below
      → w.just_wrote_key ≡ false
      → (w' : Writer) × (more' : Bool) × (a w ≡ some w')
        × (w'.stack ≡ more' ∷ below)
        × (w'.just_wrote_key ≡ false)
        × ((rest : Bytes) → w'.out ++ b']' ∷ rest ≡ w.out ++ render_items more xs (b']' ∷ rest))

pub escape-escaped : (s rest : Bytes) → escape s ++ rest ≡ escaped s ++ rest
unfolding escape escaped
escape-escaped [] rest = refl
escape-escaped (c ∷ cs) rest = ground (arith, escape-escaped cs rest)

pub quoted-append : (s rest : Bytes) → quoted s ++ rest ≡ b'"' ∷ (escaped s ++ b'"' ∷ rest)
quoted-append s rest =
    ap (◌∷◌ b'"') (append_assoc (escape s) (b'"' ∷ []) rest ∙ escape-escaped s (b'"' ∷ rest))

before_value_flag : (w : Writer) → (before_value w).just_wrote_key ≡ false
unfolding before_value comma_if_needed
before_value_flag w = flag w.stack w.just_wrote_key refl
  where
    flag :
        (st : List Bool) (b : Bool)
        → w.just_wrote_key ≡ b
        → (if b
            then record w { just_wrote_key = false }
            else comma_if_needed_in st w).just_wrote_key
          ≡ false
    flag st true e = refl
    flag [] false e = e
    flag (m ∷ st) false e = ground arith

-- A scalar whose text is that of the value.
pub scalar-Writes :
    (t : Bytes) (v : Json) → ((rest : Bytes) → t ++ rest ≡ render v rest) → Writes (scalar t) v
unfolding scalar
scalar-Writes t v e = record {
  run = λ w. (
    put t (before_value w),
    refl,
    refl,
    before_value_flag w,
    λ rest. append_assoc (before_value w).out t rest ∙ ap ((before_value w).out ++◌) (e rest),
  );
}

-- `end_object` closes an object to which nothing is added.
pub end_object-Completes : Completes end_object end
unfolding end_object render_members
end_object-Completes = record {
  run = λ w more below st flag. (
    record w { out = w.out ++ b'}' ∷ []; stack = below },
    rw st refl,
    refl,
    flag,
    λ rest. append_assoc w.out (b'}' ∷ []) rest,
  );
}
