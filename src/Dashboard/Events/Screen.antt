-- ===== src/Dashboard/Events/Screen.antt =====
-- What the stream of events shows: the markup of web/src/pages/EventStreamPage.jsx.
use triggerlink.Prelude.{
  ℕ, suc, ◌≡◌, refl, List, [], ◌∷◌, ◌++◌, Bool, false, Text, txt, nat_eq, length, append-nil,
}
use triggerlink.Dashboard.Screen.{
  Item, words, tree, link, button, input, when, connection_lost, links,
}
use triggerlink.Dashboard.Screen.Lists.{links-append, links-when_words}
use triggerlink.Dashboard.Events.{Event, EventStream, events, link_label, link_address}

-- What a control does: a row is opened or closed, or the filter is typed.
pub data Action : Type 0 where
  toggling : ℕ → Action
  typing : Text → Action

-- `fmt` prints a time for the user's locale; `is_open` is the state of the rows.
module _ (fmt : Text → Text) (is_open : ℕ → Bool) where
  abbrev pub row : ℕ → Event → List (Item Action)
  row i e =
      button e.name false (toggling i)
      ∷ words (fmt e.received_at)
      ∷ link (link_address e) (link_label e)
      ∷ when (is_open i) (tree e.body ∷ [])

  unfoldable pub rows : ℕ → List Event → List (Item Action)
  rows i [] = []
  rows i (e ∷ es) = row i e ++ rows (suc i) es

  unfoldable pub screen : EventStream → List (Item Action)
  screen s =
      words (txt "Stream") ∷ connection_lost s.polled.offline
      ++ input s.name (txt "Filter by event name, e.g. doc/uploaded") typing ∷ rows 0 (events s)
      ++ when (nat_eq (length (events s)) 0) (words (txt "No events were found.") ∷ [])

  abbrev pub addresses : List Event → List Text
  addresses [] = []
  addresses (e ∷ es) = link_address e ∷ addresses es

  links-when-tree :
      (shown : Bool) (e : Event) → links {A = Action} (when shown (tree e.body ∷ [])) ≡ []
  unfolding links
  links-when-tree Bool.true e = refl
  links-when-tree false e = refl

  rows-addresses : (i : ℕ) (es : List Event) → links (rows i es) ≡ addresses es
  unfolding rows links
  rows-addresses i [] = refl
  rows-addresses i (e ∷ es) = simp (links-append, links-when-tree, rows-addresses (suc i) es)

  -- The page links each event to the list of its runs.
  pub links-screen : (s : EventStream) → links (screen s) ≡ addresses (events s)
  unfolding screen links
  links-screen s =
      simp (links-append, links-when_words Action, rows-addresses 0 (events s), append-nil)
