-- ===== src/Dashboard/Runs/Screen.antt =====
-- What the list of runs shows: the markup of web/src/pages/RunListPage.jsx.
use triggerlink.Prelude.{
  suc, ◌<◌, true, arith, ◌≡◌, refl, ◌∙◌, ap, none, some, List, false, [], ◌∷◌, ◌++◌, Text, txt,
  nat_eq, ltb, length, append-nil, if◌then◌else◌,
}
use triggerlink.Prelude.Decimal.{print}
use triggerlink.Dashboard.Screen.{
  Item, words, badge, link, button, choice, when, with_text, all_words, connection_lost, offers,
  links,
}
use triggerlink.Dashboard.Screen.Lists.{
  offers-append, links-append, offers-all_words, links-all_words, offers-when_words,
  links-when_words, offers-with_words, links-with_words, offers-when_button, links-when_button,
}
use triggerlink.Dashboard.Runs.{Run, RunList, runs, last}

-- What a control does: a choice in a box, or the next page.
pub data Action : Type 0 where
  by_function by_status : Text → Action
  more : Action

abbrev statuses : List Text
statuses = txt "queued" ∷ txt "running" ∷ txt "completed" ∷ txt "failed" ∷ txt "cancelled" ∷ []

-- the options of a box, after the one for all
abbrev options : List Text → List (Text × Text)
options [] = []
options (t ∷ ts) = (t, t) ∷ options ts

abbrev headings : List Text
headings =
    txt "Status"
    ∷ txt "Run ID"
    ∷ txt "Function"
    ∷ txt "Trigger"
    ∷ txt "Attempts"
    ∷ txt "Queued at"
    ∷ []

-- the address of a run's page
abbrev pub address_of : Run → Text
address_of r = txt "/runs/" ++ r.id

-- `fmt` prints a time for the user's locale
abbrev pub row : (fmt : Text → Text) → Run → List (Item Action)
row fmt r =
    badge r.status
    ∷ link (address_of r) r.id
    ∷ words r.function_id
    ∷ words r.event_name
    ∷ words (print r.attempt)
    ∷ words (fmt r.created_at)
    ∷ []

unfoldable pub rows : (fmt : Text → Text) → List Run → List (Item Action)
rows fmt [] = []
rows fmt (r ∷ rs) = row fmt r ++ rows fmt rs

-- `function_ids` are the functions of the first box, which a polling of its own asks for
unfoldable pub screen :
    (fmt : Text → Text) → (function_ids : List Text) → RunList → List (Item Action)
screen fmt function_ids s =
    words (txt "Runs") ∷ connection_lost s.polled.offline
    ++ choice s.function_id ((txt "", txt "All functions") ∷ options function_ids) by_function
      ∷ choice s.status ((txt "", txt "All statuses") ∷ options statuses) by_status
      ∷ words (print (length (runs s)) ++ txt " runs")
      ∷ with_text (some s.event_id) (λ id. words (txt "Runs of event " ++ id) ∷ [])
    ++ all_words headings
    ++ rows fmt (runs s)
    ++ when (nat_eq (length (runs s)) 0) (words (txt "No results were found.") ∷ [])
    ++ when (ltb 0 (length (runs s))) (button (txt "Load more") false more ∷ [])

abbrev pub addresses : List Run → List Text
addresses [] = []
addresses (r ∷ rs) = address_of r ∷ addresses rs

rows-addresses : (fmt : Text → Text) (rs : List Run) → links (rows fmt rs) ≡ addresses rs
unfolding rows links
rows-addresses fmt [] = refl
rows-addresses fmt (r ∷ rs) = ap (λ l. address_of r ∷ l) (rows-addresses fmt rs)

rows-silent : (fmt : Text → Text) (rs : List Run) → offers (rows fmt rs) ≡ []
unfolding rows offers
rows-silent fmt [] = refl
rows-silent fmt (r ∷ rs) = simp (offers-append, rows-silent fmt rs)

links-screen :
    (fmt : Text → Text) (ids : List Text) (s : RunList)
    → links (screen fmt ids s) ≡ addresses (runs s)
unfolding screen links
links-screen fmt ids s = simp (
  links-append,
  links-when_words Action,
  links-with_words Action,
  links-all_words Action,
  links-when_button Action,
  rows-addresses,
  append-nil,
)

offers-screen :
    (fmt : Text → Text) (ids : List Text) (s : RunList)
    → offers (screen fmt ids s) ≡ (if ltb 0 (length (runs s)) then more ∷ [] else [])
unfolding screen offers
offers-screen fmt ids s = simp (
  offers-append, offers-when_words, offers-with_words, offers-all_words, offers-when_button,
  rows-silent, append-nil,
)

last-some : (rs : List Run) (r : Run) → last rs ≡ some r → ltb 0 (length rs) ≡ true
unfolding last
last-some [] r e = absurd (cc)
last-some (q ∷ rs) r e =
    let positive : 0 < suc (length rs) = omega arith in ground (arith, positive)

last-none : (rs : List Run) → last rs ≡ none → rs ≡ []
unfolding last
last-none [] e = refl
last-none (r ∷ []) e = absurd (cc)
last-none (r ∷ q ∷ rs) e = absurd (let n = last-none (q ∷ rs) e in cc)

-- The page of runs links to the page of each run that it holds, in their order, the polled ones and then those
-- of further pages. It has the button for a further page exactly if `loadMore` asks for one, after the last
-- run, and it has no other button.
pub screen-more :
    (fmt : Text → Text) (ids : List Text) (s : RunList)
    → (links (screen fmt ids s) ≡ addresses (runs s))
      × ((r : Run) → last (runs s) ≡ some r → offers (screen fmt ids s) ≡ more ∷ [])
      × (last (runs s) ≡ none → offers (screen fmt ids s) ≡ [])
screen-more fmt ids s = (
  links-screen fmt ids s,
  λ r e. offers-screen fmt ids s ∙ ap (λ b. if b then more ∷ [] else []) (last-some (runs s) r e),
  λ e.
      offers-screen fmt ids s
      ∙ ap (λ rs. if ltb 0 (length rs) then more ∷ [] else []) (last-none (runs s) e),
)
