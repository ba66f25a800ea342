-- ===== src/Tests/Showing.antt =====
-- The pages of the dashboard and the panel, as they are shown.
use triggerlink.Prelude.{ℕ, ◌≡◌, refl, none, some, [], ◌∷◌, Bool, true, false, Text, txt, ◌==◌}
use triggerlink.Prelude.Decimal.{print}
use triggerlink.Value.{null, num, nat}
use triggerlink.Dashboard.{is_active}
use triggerlink.Dashboard.Screen.{words, badge, tree, bar, button}
use triggerlink.Dashboard.Timeline.{
  StepRecord, timeline, range_of, last_end, step_bars, bar_of, left_of, width_of, bar_color,
}
use triggerlink.Dashboard.Timeline.Screen.{rows, gantt}
use triggerlink.Dashboard.Actions.{View, opened}
use triggerlink.Dashboard.Actions.Screen.{Run, Loaded, stopping, toggling, page, screen}
use triggerlink.Example.Panel.{first_panel, click, follow_up}
use triggerlink.Example.Panel.Screen

abbrev run : Run
run = record {
  id = txt "r1";
  status = txt "running";
  function_id = txt "f";
  attempt = 1;
  created_at = txt "t";
  ended_at = none;
  error = none;
  batch = false;
  event_name = txt "asked";
  event_data = null;
  output = num (nat 0);
}

abbrev step : StepRecord
step = record {
  step_id = txt "a";
  op = txt "StepComplete";
  status = txt "completed";
  output = null;
  error = [];
  attempt = 1;
  updated_at = 250;
}

abbrev view : View Loaded
view = record (opened (txt "r1")) {
  detail = record {
    polled = record {
      shown = some (record { run = run; steps = step ∷ [] });
      error = none;
      offline = false;
    };
    terminal = false;
    in_flight = 0;
  };
}

-- times are as they stand, and all are 0
abbrev fmt : Text → Text
fmt t = t

abbrev time : Text → ℕ
time t = 0

abbrev closed : ℕ → Bool
closed i = false

screen_test :
    screen fmt time closed 1000 view
    ≡ words (txt "r1")
      ∷ badge (txt "running")
      ∷ button (txt "Stop run") false stopping
      ∷ words (txt "Function f")
      ∷ words (txt "Attempt 1")
      ∷ words (txt "Queued t")
      ∷ words (txt "Trigger event asked")
      ∷ tree null
      ∷ words (txt "0")
      ∷ words (txt "Step timeline")
      ∷ words (txt "#1")
      ∷ button (txt "a") false (toggling 1)
      ∷ bar 0 25000 1000 (txt "bg-emerald-500/70")
      ∷ words (txt "0.3s")
      ∷ badge (txt "completed")
      ∷ words (txt "#2")
      ∷ words (txt "executing…")
      ∷ bar 25000 75000 1000 (txt "bg-blue-500/70 animate-pulse")
      ∷ words (txt "0.8s")
      ∷ badge (txt "running")
      ∷ []
unfolding screen page is_active gantt rows timeline range_of last_end step_bars bar_of left_of
    width_of bar_color print ◌==◌
screen_test = refl

panel_test :
    Screen.screen (λ v. txt "{}") (click first_panel)
    ≡ words (txt "端到端场景：生成经营报告（耗时任务）")
      ∷ button (txt "后台执行中…") true Screen.starting
      ∷ Screen.below (λ v. txt "{}") (click first_panel).phase
unfolding Screen.screen follow_up
panel_test = refl
