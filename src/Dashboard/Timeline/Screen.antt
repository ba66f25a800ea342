-- ===== src/Dashboard/Timeline/Screen.antt =====
-- What the timeline shows: the markup of StepGantt, StepBar and InFlightBar in
-- web/src/pages/RunDetailPage.jsx.
use triggerlink.Prelude.{
  ℕ, ◌+◌, ◌/◌, ◌%◌, none, some, Option, List, [], ◌∷◌, ◌++◌, Bool, false, Text, txt,
}
use triggerlink.Prelude.Decimal.{print}
use triggerlink.Dashboard.Screen.{Item, words, badge, tree, bar, button, when, with_text}
use triggerlink.Dashboard.Timeline.{
  StepRecord, RunTimes, Bar, bar_color, shows_attempt, range_of, timeline,
}

-- `dur.toFixed(1)` with its unit, of whole milliseconds. Half a tenth is rounded up here; the code's double may
-- fall just short of it.
abbrev pub seconds : ℕ → Text
seconds ms =
    let tenths = (ms + 50) / 100 in print (tenths / 10) ++ (b'.' ∷ (print (tenths % 10) ++ txt "s"))

-- `is_open` is the state of the rows, by their indices.
module _ {A : Type 0} (toggle : ℕ → A) (is_open : ℕ → Bool) where
  abbrev pub details : StepRecord → List (Item A)
  details step =
      words step.op ∷ with_text (some step.error) (λ e. words e ∷ []) ++ tree step.output ∷ []

  abbrev pub in_flight_row : (range : ℕ) → Bar → List (Item A)
  in_flight_row range b =
      words (b'#' ∷ print b.index)
      ∷ words (txt "executing…")
      ∷ bar b.left b.width range (txt "bg-blue-500/70 animate-pulse")
      ∷ words (seconds b.duration)
      ∷ badge (txt "running")
      ∷ []

  abbrev pub step_row : (range : ℕ) → Bar → StepRecord → List (Item A)
  step_row range b step =
      words (b'#' ∷ print b.index)
        ∷ button step.step_id false (toggle b.index)
        ∷ bar b.left b.width range (bar_color step.status)
        ∷ words (seconds b.duration)
        ∷ badge step.status
        ∷ when (shows_attempt step) (words (txt "×" ++ print step.attempt) ∷ [])
      ++ when (is_open b.index) (details step)

  abbrev pub row_of : (range : ℕ) → Bar → Option StepRecord → List (Item A)
  row_of range b none = in_flight_row range b
  row_of range b (some step) = step_row range b step

  unfoldable pub rows : (range : ℕ) → List Bar → List (Item A)
  rows range [] = []
  rows range (b ∷ bars) = row_of range b b.step ++ rows range bars

  abbrev pub gantt_of : (range : ℕ) → Option (List Bar) → List (Item A)
  gantt_of range none = words (txt "No steps recorded yet.") ∷ []
  gantt_of range (some bars) = rows range bars

  unfoldable pub gantt : List StepRecord → RunTimes → (now : ℕ) → List (Item A)
  gantt steps run now = gantt_of (range_of steps run now) (timeline steps run now)
