-- ===== src/Dashboard/Functions/Screen.antt =====
-- What the list of functions shows: the markup of web/src/pages/FunctionListPage.jsx.
use triggerlink.Prelude.{
  ◌≡◌, refl, ◌∙◌, none, some, List, [], ◌∷◌, ◌++◌, Text, txt, ◌==◌, ltb, nat_eq, length, append-nil,
  if◌then◌else◌, Bool-cases, inl, inr,
}
use triggerlink.Prelude.Decimal.{print}
use triggerlink.Dashboard.Screen.{
  Item, words, button, when, with_text, all_words, connection_lost, offers,
}
use triggerlink.Dashboard.Screen.Lists.{
  offers-append, offers-all_words, offers-when_words, offers-with_words,
}
use triggerlink.Dashboard.Functions.{
  FunctionRow, FunctionList, functions, rate, is_disabled, button_label,
}

abbrev headings : List Text
headings =
    txt "Function" ∷ txt "Event" ∷ txt "App URL" ∷ txt "24h Runs" ∷ txt "24h Success" ∷ txt "" ∷ []

-- a row; its button toggles the function
unfoldable pub row : FunctionList → FunctionRow → List (Item FunctionRow)
row s f =
    words f.id ∷ when f.paused (words (txt "paused") ∷ [])
    ++ words f.event ∷ all_words f.flow_control
    ++ words f.app_url
      ∷ words (print f.stats.total)
      ∷ words (rate f.stats)
      ∷ when (ltb 0 f.stats.failed) (words (print f.stats.failed ++ txt " failed") ∷ [])
    ++ button (button_label s f) (is_disabled s f) f ∷ []

unfoldable pub rows : FunctionList → List FunctionRow → List (Item FunctionRow)
rows s [] = []
rows s (f ∷ fs) = row s f ++ rows s fs

unfoldable pub screen : FunctionList → List (Item FunctionRow)
screen s =
    words (txt "Functions") ∷ connection_lost s.polled.offline
    ++ with_text s.action_error (λ e. words e ∷ [])
    ++ all_words headings
    ++ rows s (functions s)
    ++ when (nat_eq (length (functions s)) 0) (words (txt "No functions were found.") ∷ [])

-- the functions but those of an id
unfoldable pub others : Text → List FunctionRow → List FunctionRow
others id [] = []
others id (f ∷ fs) = let rest = others id fs in if id == f.id then rest else f ∷ rest

offers-row :
    (s : FunctionList) (f : FunctionRow)
    → offers (row s f) ≡ (if is_disabled s f then [] else f ∷ [])
unfolding row offers
offers-row s f = elim (Bool-cases (is_disabled s f)) [
  | inl e ↦ simp (offers-append, offers-when_words, offers-all_words, e)
  | inr e ↦ simp (offers-append, offers-when_words, offers-all_words, e)
]

offers-screen : (s : FunctionList) → offers (screen s) ≡ offers (rows s (functions s))
unfolding screen offers
offers-screen s =
    simp (offers-append, offers-when_words, offers-with_words, offers-all_words, append-nil)

rows-all : (s : FunctionList) (fs : List FunctionRow) → s.pending ≡ none → offers (rows s fs) ≡ fs
unfolding rows offers
rows-all s [] idle = refl
rows-all s (f ∷ fs) idle = simp (offers-append, offers-row, idle, rows-all s fs idle)

rows-others :
    (s : FunctionList) (id : Text) (fs : List FunctionRow)
    → s.pending ≡ some id
    → offers (rows s fs) ≡ others id fs
unfolding rows others offers
rows-others s id [] busy = refl
rows-others s id (f ∷ fs) busy = elim (Bool-cases (id == f.id)) [
  | inl e ↦ simp (offers-append, offers-row, busy, rows-others s id fs busy, e)
  | inr e ↦ simp (offers-append, offers-row, busy, rows-others s id fs busy, e)
]

-- The page of functions offers to pause or to resume each function of its list, in order, by a button in its
-- row; while one is being paused or resumed it offers all but the rows with that id. It offers nothing else.
pub screen-offers :
    (s : FunctionList)
    → (s.pending ≡ none → offers (screen s) ≡ functions s)
      × ((id : Text) → s.pending ≡ some id → offers (screen s) ≡ others id (functions s))
screen-offers s = (
  λ idle. offers-screen s ∙ rows-all s (functions s) idle,
  λ id busy. offers-screen s ∙ rows-others s id (functions s) busy,
)
