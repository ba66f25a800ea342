-- ===== src/Dashboard/Runs.antt =====
-- The list of runs: web/src/pages/RunListPage.jsx, its filters, polling, and further pages.
pub mod Paging
pub mod Screen
use triggerlink.Prelude.{ℕ, Option, none, some, List, [], ◌∷◌, ◌++◌, Text, txt, or_else}
use triggerlink.Execx.{Host}
use triggerlink.Effects.{Outcome, returned, threw}
use triggerlink.Dashboard.{Polled, initial, settle}
use triggerlink.Dashboard.Api.{Fetch, fetch_runs}

-- A run, as a row shows it.
pub record Run : Type 0 where
  pub id : Text
  pub function_id : Text
  pub status : Text
  pub event_name : Text
  pub attempt : ℕ
  pub created_at : Text

-- The answer to `fetchRuns`.
pub record RunPage : Type 0 where
  pub runs : List Run

-- The state of the page. `event_id` is read from the address.
pub record RunList : Type 0 where
  pub function_id : Text
  pub status : Text
  pub event_id : Text
  pub extra : List Run
  pub polled : Polled RunPage

-- the page as it opens, with the parameters of its address
abbrev pub opened : (function_id status event_id : Option Text) → RunList
opened function_id status event_id = record {
  function_id = or_else function_id [];
  status = or_else status [];
  event_id = or_else event_id [];
  extra = [];
  polled = initial;
}

-- `params`
abbrev pub params : RunList → List (Text × Text)
params s =
    (txt "function_id", s.function_id)
    ∷ (txt "status", s.status)
    ∷ (txt "event_id", s.event_id)
    ∷ []

abbrev runs_of : Option RunPage → List Run
runs_of none = []
runs_of (some page) = page.runs

-- `runs`: what the table shows
abbrev pub runs : RunList → List Run
runs s = runs_of s.polled.shown ++ s.extra

unfoldable pub last : List Run → Option Run
last [] = none
last (r ∷ []) = some r
last (r ∷ q ∷ rs) = last (q ∷ rs)

abbrev pub cursor : Run → Text
cursor r = r.created_at ++ (b'|' ∷ r.id)

-- the parameters of a further page, after a run
abbrev pub params_before : RunList → Run → List (Text × Text)
params_before s r = params s ++ (txt "before", cursor r) ∷ []

-- A choice in one of the two boxes, and the effect that forgets the further pages.
abbrev pub choose_function : Text → RunList → RunList
choose_function f s = record s { function_id = f; extra = [] }

abbrev pub choose_status : Text → RunList → RunList
choose_status status s = record s { status = status; extra = [] }

-- an answer to `loadMore`; a throw is not caught, and nothing is set
abbrev pub add_page : Outcome RunPage → RunList → RunList
add_page (threw e) s = s
add_page (returned d) s = record s { extra = s.extra ++ d.runs }

module _ (host : Host) (encode_query : List (Text × Text) → Text) (fetch : Fetch RunPage) where
  -- a tick, and its answer
  unfoldable pub poll : RunList → RunList
  poll s = record s { polled = settle (fetch_runs host encode_query fetch (params s)) s.polled }

  abbrev load_after : Option Run → RunList → RunList
  load_after none s = s
  load_after (some r) s = add_page (fetch_runs host encode_query fetch (params_before s r)) s

  -- `loadMore`, and its answer
  unfoldable pub load_more : RunList → RunList
  load_more s = load_after (last (runs s)) s
