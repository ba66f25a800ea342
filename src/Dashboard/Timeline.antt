-- ===== src/Dashboard/Timeline.antt =====
-- The timeline of a run's steps: StepGantt and its bars in web/src/pages/RunDetailPage.jsx.
-- Times are in milliseconds. A position is kept exact, in parts of which `range` make a percent:
-- where the code takes the larger of 0 and a difference, subtraction that stops at 0 does so.
pub mod Placing
pub mod Untimed
pub mod Screen
use triggerlink.Prelude.{
  not, ℕ, zero, suc, ◌+◌, ◌-◌, ◌*◌, Option, none, some, List, [], ◌∷◌, ◌++◌, Bool, true, false,
  Text, txt, ◌==◌, length, leb, ltb, ◌&&◌, if◌then◌else◌, or_else,
}
use triggerlink.Value.{Value}

-- A step that has its time, as the API gives it. The child Untimed has those without `updated_at`.
pub record StepRecord : Type 0 where
  pub step_id : Text
  pub op : Text
  pub status : Text
  pub output : Value
  pub error : Text
  pub attempt : ℕ
  pub updated_at : ℕ

-- what the timeline reads of the run
pub record RunTimes : Type 0 where
  pub status : Text
  pub created_at : ℕ
  pub ended_at : Option ℕ

abbrev pub max : ℕ → ℕ → ℕ
max a b = if leb a b then b else a

abbrev pub min : ℕ → ℕ → ℕ
min a b = if leb a b then a else b

-- `left` and `width`
unfoldable pub left_of : (start t0 range : ℕ) → ℕ
left_of start t0 range = min (99 * range) ((start - t0) * 100)

unfoldable pub width_of : (left start end range : ℕ) → ℕ
width_of left start end range = max range (min (100 * range - left) ((end - start) * 100))

-- A bar; `step` is none for the bar of the step that is being executed.
pub record Bar : Type 0 where
  pub index : ℕ
  pub step : Option StepRecord
  pub left : ℕ
  pub width : ℕ
  pub duration : ℕ

unfoldable pub bar_of : (index : ℕ) → Option StepRecord → (start end t0 range : ℕ) → Bar
bar_of index step start end t0 range =
    let left = left_of start t0 range in
    record {
      index = index;
      step = step;
      left = left;
      width = width_of left start end range;
      duration = end - start;
    }

-- when the last step ended
unfoldable pub last_end : List StepRecord → ℕ → ℕ
last_end [] t0 = t0
last_end (s ∷ steps) t0 = last_end steps s.updated_at

-- one bar for each step, which starts where the one before ended
unfoldable pub step_bars : List StepRecord → (index start t0 range : ℕ) → List Bar
step_bars [] index start t0 range = []
step_bars (s ∷ steps) index start t0 range =
    bar_of index (some s) start s.updated_at t0 range
    ∷ step_bars steps (suc index) s.updated_at t0 range

abbrev pub is_running : RunTimes → Bool
is_running run = run.status == txt "running"

unfoldable pub range_of : List StepRecord → RunTimes → (now : ℕ) → ℕ
range_of steps run now =
    let ended = max (or_else run.ended_at 0) (last_end steps run.created_at) in
    max (max ended (if is_running run then now else 0)) (run.created_at + 1) - run.created_at

abbrev pub in_flight_bar : Bool → (index start now t0 range : ℕ) → List Bar
in_flight_bar true index start now t0 range = bar_of index none start now t0 range ∷ []
in_flight_bar false index start now t0 range = []

-- the bars: one for each step, and one for the step that is being executed
abbrev pub bars_of : List StepRecord → RunTimes → (now : ℕ) → List Bar
bars_of steps run now =
    let range = range_of steps run now in
    step_bars steps 1 run.created_at run.created_at range
    ++ in_flight_bar (is_running run) (length steps + 1) (last_end steps run.created_at) now
        run.created_at range

-- None stands for "No steps recorded yet."
unfoldable pub timeline : List StepRecord → RunTimes → (now : ℕ) → Option (List Bar)
timeline [] run now = if is_running run then some (bars_of [] run now) else none
timeline (s ∷ steps) run now = some (bars_of (s ∷ steps) run now)

-- the color of a step's bar
unfoldable pub bar_color : Text → Text
bar_color status =
    if status == txt "completed"
    then txt "bg-emerald-500/70"
    else if status == txt "failed"
    then txt "bg-red-500/70"
    else if status == txt "running"
    then txt "bg-blue-500/70 animate-pulse"
    else txt "bg-neutral-500/50"

-- whether a step's row opens by itself, and what it shows beside its badge
abbrev pub opens : StepRecord → Bool
opens s = s.status == txt "failed"

-- a click on the row
abbrev pub toggle_row : (opened : Bool) → Bool
toggle_row opened = not opened

abbrev pub shows_attempt : StepRecord → Bool
shows_attempt s = s.status == txt "failed" && ltb 1 s.attempt
