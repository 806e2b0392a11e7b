-- ===== src/Json/Writes/Nested.antt =====
-- The rules for objects, arrays and their members and items.
use mathlib.Core.Path.{fun_ext}
use llm_river.Base.{
  Option-cases, inl, inr, Bool, true, false, some, List, [], ◌∷◌, ◌++◌, append_assoc, ◌≡◌, refl, ap,
  ◌∙◌, if◌then◌else◌, Bytes,
}
use llm_river.Json.Document.{
  Json, Items, Members, array, object, nil, cons, member, separator, render, render_items,
  render_members,
}
use llm_river.Json.{
  Writer, Action, ◌>>◌, skip, when, put, quoted, comma_if_needed, before_value, begin_object,
  begin_array, end_array, key,
}
use llm_river.Json.Writes.{Writes, Completes, Fills, quoted-append, before_value_flag}

-- Two actions in a row.
>>-some : (a b : Action) {w w₁ w₂ : Writer} → a w ≡ some w₁ → b w₁ ≡ some w₂ → (a >> b) w ≡ some w₂
unfolding ◌>>◌
>>-some a b e f = rw e f

abbrev keyed : Bytes → Bool → List Bool → Writer → Writer
keyed k more below w = record {
  out = w.out ++ separator more (quoted k ++ b':' ∷ []);
  stack = true ∷ below;
  just_wrote_key = true;
}

key-keyed :
    (k : Bytes) (w : Writer) (more : Bool) (below : List Bool)
    → w.stack ≡ more ∷ below
    → key k w ≡ some (keyed k more below w)
unfolding key comma_if_needed
key-keyed k w true below st = rw st (
    ap (λ o. some (record { out = o; stack = true ∷ below; just_wrote_key = true }))
      (append_assoc w.out (b',' ∷ []) (quoted k ++ b':' ∷ [])))
key-keyed k w false below st = rw st refl

before_value-keyed :
    (k : Bytes) (w : Writer) (more : Bool) (below : List Bool)
    → (before_value (keyed k more below w)).stack ≡ true ∷ below
unfolding before_value
before_value-keyed k w more below = refl

out-keyed :
    (k : Bytes) (x : Json) (ms : Members) (w : Writer) (more : Bool) (below : List Bool)
    (rest : Bytes)
    → (before_value (keyed k more below w)).out ++ render x (render_members true ms rest)
      ≡ w.out ++ render_members more (member k x ms) rest
unfolding before_value render_members
out-keyed k x ms w true below rest =
    append_assoc w.out (b',' ∷ (quoted k ++ b':' ∷ [])) _
    ∙ ap (λ t. w.out ++ b',' ∷ t) (append_assoc (quoted k) (b':' ∷ []) _ ∙ quoted-append k _)
out-keyed k x ms w false below rest =
    append_assoc w.out (quoted k ++ b':' ∷ []) _
    ∙ ap (w.out ++◌) (append_assoc (quoted k) (b':' ∷ []) _ ∙ quoted-append k _)

-- A member: its key, its value, and the rest of the object.
pub member-Completes :
    {v r : Action} {x : Json} {ms : Members} (k : Bytes)
    → Writes v x
    → Completes r ms
    → Completes (key k >> (v >> r)) (member k x ms)
member-Completes {v} {r} {x} {ms} k value others = record {
  run = λ w more below st flag.
      let w₁ : Writer = keyed k more below w in
      let (w₂, e₂, s₂, f₂, o₂) = value.run w₁ in
      let (w₃, e₃, s₃, f₃, o₃) =
        others.run w₂ true below (s₂ ∙ before_value-keyed k w more below) f₂ in
      (
        w₃,
        >>-some _ _ (key-keyed k w more below st) (>>-some v r e₂ e₃),
        s₃,
        f₃,
        λ rest. o₃ rest ∙ o₂ _ ∙ out-keyed k x ms w more below (b'}' ∷ rest),
      );
}

-- The order of the brackets in a sequence says nothing.
pub >>_assoc : (a b c : Action) → (a >> b) >> c ≡ a >> (b >> c)
unfolding ◌>>◌
>>_assoc a b c = fun_ext λ w. elim (Option-cases (a w)) [ inl e ↦ rw e | inr (w', e) ↦ rw e ]

-- The same for a call of `kv`.
pub kv-Completes :
    {v r : Action} {x : Json} {ms : Members} (k : Bytes)
    → Writes v x
    → Completes r ms
    → Completes ((key k >> v) >> r) (member k x ms)
kv-Completes {v} {r} k value others = rw (>>_assoc (key k) v r) (member-Completes k value others)

-- A call that is made under a test.
pub when-Completes :
    {r : Action} {ms ns : Members} (test : Bool) (a : Action)
    → Completes (a >> r) ms
    → Completes r ns
    → Completes (when test a >> r) (if test then ms else ns)
unfolding when
when-Completes true a with_it without = with_it
when-Completes false a with_it without = unfold skip ◌>>◌ in without

-- An object: its bracket, and what completes it.
pub object-Writes :
    {r : Action} {ms : Members} → Completes r ms → Writes (begin_object >> r) (object ms)
unfolding begin_object render
object-Writes {r} {ms} others = record {
  run = λ w.
      let v = before_value w in
      let w₁ : Writer = record (put (b'{' ∷ []) v) { stack = false ∷ v.stack } in
      let (w₂, e₂, s₂, f₂, o₂) = others.run w₁ false v.stack refl (before_value_flag w) in
      (
        w₂,
        >>-some begin_object r refl e₂,
        s₂,
        f₂,
        λ rest. o₂ rest ∙ append_assoc v.out (b'{' ∷ []) _,
      );
}

pub skip-Fills : Fills skip nil
unfolding skip render_items
skip-Fills = record { run = λ w more below st flag. (w, more, refl, st, flag, λ rest. refl) }

before_value_item :
    (w : Writer) (more : Bool) (below : List Bool)
    → w.stack ≡ more ∷ below
    → w.just_wrote_key ≡ false
    → ((before_value w).stack ≡ true ∷ below)
      × ((t : Bytes) → (before_value w).out ++ t ≡ w.out ++ separator more t)
unfolding before_value comma_if_needed
before_value_item w true below st flag = rw (flag, st) (refl, λ t. append_assoc w.out (b',' ∷ []) t)
before_value_item w false below st flag = rw (flag, st) (refl, λ t. refl)

-- An item and those after it.
pub item-Fills :
    {v r : Action} {x : Json} {xs : Items} → Writes v x → Fills r xs → Fills (v >> r) (cons x xs)
unfolding render_items
item-Fills {v} {r} {x} {xs} value others = record {
  run = λ w more below st flag.
      let (stack_is, out_is) = before_value_item w more below st flag in
      let (w₁, e₁, s₁, f₁, o₁) = value.run w in
      let (w₂, more', e₂, s₂, f₂, o₂) = others.run w₁ true below (s₁ ∙ stack_is) f₁ in
      (w₂, more', >>-some v r e₁ e₂, s₂, f₂, λ rest. o₂ rest ∙ o₁ _ ∙ out_is _);
}

-- An array: its brackets around what fills it.
pub array-Writes :
    {r : Action} {xs : Items} → Fills r xs → Writes (begin_array >> (r >> end_array)) (array xs)
unfolding begin_array end_array render
array-Writes {r} {xs} others = record {
  run = λ w.
      let v = before_value w in
      let w₁ : Writer = record (put (b'[' ∷ []) v) { stack = false ∷ v.stack } in
      let (w₂, more, e₂, s₂, f₂, o₂) = others.run w₁ false v.stack refl (before_value_flag w) in
      let w₃ : Writer = record w₂ { out = w₂.out ++ b']' ∷ []; stack = v.stack } in
      (
        w₃,
        >>-some begin_array (r >> end_array) refl (>>-some r end_array e₂ (rw s₂ refl)),
        refl,
        f₂,
        λ rest. append_assoc w₂.out (b']' ∷ []) rest ∙ o₂ rest ∙ append_assoc v.out (b'[' ∷ []) _,
      );
}

-- A call that does nothing.
pub skip-Completes : {r : Action} {ms : Members} → Completes r ms → Completes (skip >> r) ms
skip-Completes others = unfold skip ◌>>◌ in others
