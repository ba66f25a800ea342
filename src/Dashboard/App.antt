-- ===== src/Dashboard/App.antt =====
-- The frame of the dashboard: web/src/App.jsx, with its navigation and its routes. The matching of an address with
-- the paths of the routes is the router's, a package, and is not modelled.
use triggerlink.Prelude.{
  ◌≡◌, refl, some, List, [], ◌∷◌, ◌++◌, Bool, Text, txt, ◌==◌, lookup, if◌then◌else◌, All,
}
use triggerlink.Dashboard.Screen.{Item, words, link, links}

pub data Page : Type 0 where
  run_list run_detail event_stream function_list : Page

-- What a route shows: a page, or the way to another address.
pub data Element : Type 0 where
  page : Page → Element
  navigate : (to : Text) → Element

abbrev pub routes : List (Text × Element)
routes =
    (txt "/runs", page run_list)
    ∷ (txt "/runs/:id", page run_detail)
    ∷ (txt "/events", page event_stream)
    ∷ (txt "/functions", page function_list)
    ∷ (txt "*", navigate (txt "/runs"))
    ∷ []

-- the classes of a link of the navigation
abbrev pub item_class : (is_active : Bool) → Text
item_class is_active =
    txt "block rounded-md px-3 py-1.5 text-sm transition-colors "
    ++ (if is_active
        then txt "bg-blue-600/20 text-blue-400 font-medium"
        else txt "text-neutral-400 hover:text-neutral-100 hover:bg-neutral-800/60")

module _ {A : Type 0} where
  abbrev pub nav_group : (title : Text) → List (Item A) → List (Item A)
  nav_group title children = words title ∷ children

  -- the side of the page, before what the route shows
  unfoldable pub frame : List (Item A)
  frame =
      words (txt "TriggerLink")
        ∷ words (txt "Dev Server")
        ∷ nav_group (txt "Monitor")
            (link (txt "/runs") (txt "Runs") ∷ link (txt "/events") (txt "Stream") ∷ [])
      ++ nav_group (txt "Manage") (link (txt "/functions") (txt "Functions") ∷ [])

-- the route of an address shows a page of its own
abbrev pub HasPage : Text → Type 0
HasPage to = (p : Page) × (lookup to routes ≡ some (page p))

-- Every link of the navigation has a route with a page, and so has the address that other addresses lead to.
pub frame-HasPage : (A : Type 0) → All HasPage (links (frame {A = A})) × HasPage (txt "/runs")
unfolding frame links lookup ◌==◌
frame-HasPage A =
    (((run_list, refl), ((event_stream, refl), ((function_list, refl), tt))), (run_list, refl))
