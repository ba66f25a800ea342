-- ===== src/Dashboard/Functions.antt =====
-- The list of functions: web/src/pages/FunctionListPage.jsx, where a function is paused and resumed.
pub mod Toggling
pub mod Screen
use triggerlink.Prelude.{
  ℕ, zero, suc, ◌+◌, ◌*◌, ◌/◌, Option, none, some, List, [], ◌++◌, Bool, true, false, Text, txt,
  ◌==◌, or_else, ltb, if◌then◌else◌,
}
use triggerlink.Prelude.Decimal.{print}
use triggerlink.Execx.{Host, Thrown}
use triggerlink.Effects.{Outcome, returned, threw}
use triggerlink.Dashboard.{Polled, initial, settle}
use triggerlink.Dashboard.Api.{Fetch, fetch_functions, pause_function, resume_function}
use triggerlink.Dashboard.Actions.{message_of}

-- The runs of the last day.
pub record Stats : Type 0 where
  pub total : ℕ
  pub completed : ℕ
  pub failed : ℕ

pub record FunctionRow : Type 0 where
  pub id : Text
  pub event : Text
  pub flow_control : List Text
  pub app_url : Text
  pub paused : Bool
  pub stats : Stats

-- The state of the page; `pending` is the function whose button was clicked.
pub record FunctionList : Type 0 where
  pub polled : Polled (List FunctionRow)
  pub pending : Option Text
  pub action_error : Option Text

abbrev pub opened : FunctionList
opened = record { polled = initial; pending = none; action_error = none }

abbrev pub functions : FunctionList → List FunctionRow
functions s = or_else s.polled.shown []

-- The label of a row's success. The percentage is exact here; the code's is a double, which may fall short of
-- a half that `Math.round` would round up.
unfoldable pub rate : Stats → Text
rate stats =
    if ltb 0 stats.total
    then print ((200 * stats.completed + stats.total) / (2 * stats.total)) ++ txt "%"
    else txt "—"

abbrev is_pending : Option Text → Text → Bool
is_pending none id = false
is_pending (some p) id = p == id

-- a row's button
abbrev pub is_disabled : FunctionList → FunctionRow → Bool
is_disabled s f = is_pending s.pending f.id

abbrev pub button_label : FunctionList → FunctionRow → Text
button_label s f =
    if is_disabled s f then txt "…" else if f.paused then txt "Resume" else txt "Pause"

abbrev failure_of : FunctionRow → Thrown → Text
failure_of f e =
    (if f.paused then txt "Resume " else txt "Pause ")
    ++ (f.id ++ (txt " failed: " ++ or_else (message_of e) (txt "undefined")))

-- `onTogglePause` up to its request
abbrev pub begin_toggle : FunctionRow → FunctionList → FunctionList
begin_toggle f s = record s { pending = some f.id; action_error = none }

-- a tick of the polling, with its answer
abbrev pub refresh : Host → Fetch (List FunctionRow) → FunctionList → FunctionList
refresh host fetch s = record s { polled = settle (fetch_functions host fetch) s.polled }

-- the request; what it returns is not used
unfoldable pub toggle_request :
    {A : Type 0} → Host → (encode : Text → Text) → Fetch A → FunctionRow → Outcome A
toggle_request host encode fetch f =
    if f.paused
    then resume_function host fetch encode f.id
    else pause_function host fetch encode f.id

-- `onTogglePause` from the answer on; `after` is the platform as the page asks it again
unfoldable pub end_toggle :
    {A : Type 0}
    → Host
    → (after : Fetch (List FunctionRow)) → FunctionRow
    → Outcome A
    → FunctionList
    → FunctionList
end_toggle host after f (returned v) s = record (refresh host after s) { pending = none }
end_toggle host after f (threw e) s = record s {
  pending = none;
  action_error = some (failure_of f e);
}

-- `onTogglePause`, where nothing comes between
unfoldable pub toggle :
    {A : Type 0}
    → Host
    → (encode : Text → Text) → (now : Fetch A) → (after : Fetch (List FunctionRow)) → FunctionRow
    → FunctionList
    → FunctionList
toggle host encode now after f s =
    end_toggle host after f (toggle_request host encode now f) (begin_toggle f s)
