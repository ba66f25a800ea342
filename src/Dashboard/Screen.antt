-- ===== src/Dashboard/Screen.antt =====
-- What the pages of the dashboard show (the markup of web/src/pages and web/src/App.jsx): texts and controls, in
-- their order. Tags, classes and tooltips are left out, and so is what a component of its own shows.
pub mod Lists
use triggerlink.Prelude.{
  ℕ, Option, none, some, List, [], ◌∷◌, ◌++◌, Bool, true, false, Text, txt, if◌then◌else◌,
}
use triggerlink.Value.{Value}

-- `A` is what a control does. A bar stands at `left / range` percent and is `width / range` percent wide.
pub data Item (A : Type 0) : Type 0 where
  words : Text → Item A
  badge : (status : Text) → Item A
  tree : Value → Item A
  bar : (left width range : ℕ) → (color : Text) → Item A
  link : (to label : Text) → Item A
  button : (label : Text) → (disabled : Bool) → A → Item A
  choice : (value : Text) → (options : List (Text × Text)) → (Text → A) → Item A
  input : (value placeholder : Text) → (Text → A) → Item A

module _ {A : Type 0} where
  -- `shown && …`
  abbrev pub when : Bool → List (Item A) → List (Item A)
  when shown items = if shown then items else []

  -- `text && …`, where a text that is empty shows nothing
  abbrev pub with_text : Option Text → (Text → List (Item A)) → List (Item A)
  with_text none items = []
  with_text (some []) items = []
  with_text (some (c ∷ text)) items = items (c ∷ text)

  abbrev pub all_words : List Text → List (Item A)
  all_words [] = []
  all_words (t ∷ ts) = words t ∷ all_words ts

  abbrev pub connection_lost : Bool → List (Item A)
  connection_lost offline = when offline (words (txt "Connection lost, retrying…") ∷ [])

  -- what an item lets the user do with one click
  abbrev pub offer : Item A → List A
  offer (button label false action) = action ∷ []
  offer item = []

  -- the buttons that are enabled
  unfoldable pub offers : List (Item A) → List A
  offers [] = []
  offers (item ∷ items) = offer item ++ offers items

  abbrev pub address : Item A → List Text
  address (link to label) = to ∷ []
  address item = []

  unfoldable pub links : List (Item A) → List Text
  links [] = []
  links (item ∷ items) = address item ++ links items
