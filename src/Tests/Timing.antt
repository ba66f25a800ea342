-- ===== src/Tests/Timing.antt =====
-- The timeline of a running run with two steps.
use triggerlink.Prelude.{
  ℕ, ◌+◌, ◌≤◌, ◌≡◌, refl, none, some, List, [], ◌∷◌, ◌++◌, map, Text, txt, ◌==◌, arith, All, length,
}
use triggerlink.Value.{null}
use triggerlink.Dashboard.Timeline.{
  StepRecord, RunTimes, left_of, width_of, bar_of, last_end, step_bars, range_of, timeline, bars_of,
}
use triggerlink.Dashboard.Timeline.Placing.{
  IsInside, IsProportional, total, timeline-IsInside, timeline-IsProportional,
}
use triggerlink.Dashboard.Timeline.Untimed.{StepRow, timed, timed_bar, row_timeline}
use triggerlink.Dashboard.Timeline.Untimed.Placing.{
  IsUnplaced, row_timeline-eq-timeline, row_timeline-IsUnplaced,
}
use mathlib.Core.Option

abbrev step : Text → ℕ → StepRecord
step id updated_at = record {
  step_id = id;
  op = txt "StepComplete";
  status = txt "completed";
  output = null;
  error = [];
  attempt = 1;
  updated_at = updated_at;
}

abbrev steps : List StepRecord
steps = step (txt "a") 1500 ∷ step (txt "b") 1502 ∷ []

abbrev run : RunTimes
run = record { status = txt "running"; created_at = 1000; ended_at = none }

bars_test :
    timeline steps run 2000
    ≡ some (
        record {
          index = 1;
          step = some (step (txt "a") 1500);
          left = 0;
          width = 50000;
          duration = 500;
        }
        ∷ record {
          index = 2;
          step = some (step (txt "b") 1502);
          left = 50000;
          width = 1000;
          duration = 2;
        }
        ∷ record { index = 3; step = none; left = 50200; width = 49800; duration = 498 }
        ∷ [])
unfolding timeline range_of last_end step_bars bar_of left_of width_of ◌==◌
bars_test = refl

timeline-IsInside_example :
    (length (bars_of steps run 2000) ≡ 3)
    × (1 ≤ range_of steps run 2000)
    × All (IsInside (range_of steps run 2000)) (bars_of steps run 2000)
unfolding timeline ◌==◌
timeline-IsInside_example = timeline-IsInside steps run 2000 (bars_of steps run 2000) refl

widths_test :
    All (IsProportional (range_of steps run 2000)) (bars_of steps run 2000)
    × (1000 + total (bars_of steps run 2000) ≡ 2000)
unfolding timeline last_end ◌==◌
widths_test =
    timeline-IsProportional steps run 2000 (bars_of steps run 2000) refl
      (omega arith, (omega arith, tt)) (omega arith)

timed_test :
    row_timeline (map timed steps) run 2000 ≡ Option.map (map timed_bar) (timeline steps run 2000)
timed_test = row_timeline-eq-timeline steps run 2000

abbrev untimed : StepRow
untimed = record (timed (step (txt "c") 0)) { updated_at = none }

missing_time_test :
    (bars : _) × (row_timeline (map timed steps ++ (untimed ∷ [])) run 2000 ≡ some bars)
    × All IsUnplaced bars
missing_time_test = row_timeline-IsUnplaced (map timed steps) untimed run 2000 refl
