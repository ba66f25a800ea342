-- ===== src/Dashboard/Timeline/Untimed.antt =====
-- The timeline of steps of which the API leaves `updated_at` out (web/src/pages/RunDetailPage.jsx): the time is
-- then NaN, and so is every number that is computed of it.
pub mod Placing
use triggerlink.Prelude.{
  ℕ, suc, ◌+◌, ◌-◌, ◌≡◌, refl, sym, ◌∙◌, ap, none, some, Option, List, [], ◌∷◌, ◌++◌, map, Bool,
  true, false, Text, if◌then◌else◌, or_else, All, All-append, length,
}
use mathlib.Core.List.{map-append}
use mathlib.Core.Option
use triggerlink.Value.{Value}
use triggerlink.Dashboard.Timeline.{
  StepRecord, RunTimes, Bar, left_of, width_of, bar_of, last_end, step_bars, is_running, range_of,
  in_flight_bar, bars_of, timeline, max,
}

-- A step, as the API gives it.
pub record StepRow : Type 0 where
  pub step_id : Text
  pub op : Text
  pub status : Text
  pub output : Value
  pub error : Text
  pub attempt : ℕ
  pub updated_at : Option ℕ

-- A bar, with none for NaN.
pub record RowBar : Type 0 where
  pub index : ℕ
  pub row : Option StepRow
  pub left : Option ℕ
  pub width : Option ℕ
  pub duration : Option ℕ

abbrev pub left_at : Option ℕ → ℕ → Option ℕ → Option ℕ
left_at (some start) t0 (some range) = some (left_of start t0 range)
left_at start t0 range = none

abbrev pub width_at : (start end : Option ℕ) → ℕ → Option ℕ → Option ℕ
width_at (some start) (some end) t0 (some range) =
    some (width_of (left_of start t0 range) start end range)
width_at start end t0 range = none

abbrev duration_at : (start end : Option ℕ) → Option ℕ
duration_at (some start) (some end) = some (end - start)
duration_at start end = none

abbrev pub row_bar : ℕ → Option StepRow → (start end : Option ℕ) → ℕ → Option ℕ → RowBar
row_bar index row start end t0 range = record {
  index = index;
  row = row;
  left = left_at start t0 range;
  width = width_at start end t0 range;
  duration = duration_at start end;
}

-- the time of the last row
unfoldable pub last_time : List StepRow → Option ℕ → Option ℕ
last_time [] before = before
last_time (row ∷ rows) before = last_time rows row.updated_at

-- `Math.max` of numbers with one that may be NaN
abbrev pub range_from : Option ℕ → RunTimes → (now : ℕ) → Option ℕ
range_from none run now = none
range_from (some last) run now = some (
    max (max (max (or_else run.ended_at 0) last) (if is_running run then now else 0))
      (run.created_at + 1)
    - run.created_at)

unfoldable pub row_bars : List StepRow → ℕ → (start : Option ℕ) → ℕ → Option ℕ → List RowBar
row_bars [] index start t0 range = []
row_bars (row ∷ rows) index start t0 range =
    row_bar index (some row) start row.updated_at t0 range
    ∷ row_bars rows (suc index) row.updated_at t0 range

abbrev pub executing_bar : Bool → ℕ → Option ℕ → ℕ → ℕ → Option ℕ → List RowBar
executing_bar true index start now t0 range = row_bar index none start (some now) t0 range ∷ []
executing_bar false index start now t0 range = []

abbrev pub row_bars_of : List StepRow → RunTimes → (now : ℕ) → List RowBar
row_bars_of rows run now =
    let last = last_time rows (some run.created_at) in
    let range = range_from last run now in
    row_bars rows 1 (some run.created_at) run.created_at range
    ++ executing_bar (is_running run) (length rows + 1) last now run.created_at range

unfoldable pub row_timeline : List StepRow → RunTimes → (now : ℕ) → Option (List RowBar)
row_timeline [] run now = if is_running run then some (row_bars_of [] run now) else none
row_timeline (row ∷ rows) run now = some (row_bars_of (row ∷ rows) run now)

-- a step that has its time, as a row, and its bar
abbrev pub timed : StepRecord → StepRow
timed s = record {
  step_id = s.step_id;
  op = s.op;
  status = s.status;
  output = s.output;
  error = s.error;
  attempt = s.attempt;
  updated_at = some s.updated_at;
}

abbrev timed_step : Option StepRecord → Option StepRow
timed_step none = none
timed_step (some s) = some (timed s)

abbrev pub timed_bar : Bar → RowBar
timed_bar b = record {
  index = b.index;
  row = timed_step b.step;
  left = some b.left;
  width = some b.width;
  duration = some b.duration;
}
