-- ===== src/Json/Document.antt =====
-- JSON documents, independently of the writer, and their compact text.
use llm_river.Base.{Bool, true, false, ◌||◌, [], ◌∷◌, ◌++◌, ◌==◌, if◌then◌else◌, Bytes}

mutual
  -- A number, `true`, `false` or `null` is a token.
  pub data Json : Type 0 where
    text : Bytes → Json
    token : Bytes → Json
    array : Items → Json
    object : Members → Json

  pub data Items : Type 0 where
    nil : Items
    cons : Json → Items → Items

  pub data Members : Type 0 where
    end : Members
    member : Bytes → Json → Members → Members

-- A string's text: a quote and a backslash get a backslash in front.
unfoldable pub escaped : Bytes → Bytes
escaped [] = []
escaped (c ∷ cs) = if c == b'"' || c == b'\\' then b'\\' ∷ c ∷ escaped cs else c ∷ escaped cs

abbrev pub separator : Bool → Bytes → Bytes
separator true rest = b',' ∷ rest
separator false rest = rest

-- The text of a document in front of what follows it; the flag says that an item went before.
unfoldable mutual
  unfolding escaped

  pub render : Json → Bytes → Bytes
  render (text s) rest = b'"' ∷ (escaped s ++ b'"' ∷ rest)
  render (token t) rest = t ++ rest
  render (array xs) rest = b'[' ∷ render_items false xs (b']' ∷ rest)
  render (object ms) rest = b'{' ∷ render_members false ms (b'}' ∷ rest)

  pub render_items : Bool → Items → Bytes → Bytes
  render_items more nil rest = rest
  render_items more (cons x xs) rest = separator more (render x (render_items true xs rest))

  pub render_members : Bool → Members → Bytes → Bytes
  render_members more end rest = rest
  render_members more (member k x ms) rest =
      separator more (b'"' ∷ (escaped k ++ b'"' ∷ b':' ∷ render x (render_members true ms rest)))
