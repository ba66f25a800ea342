-- ===== src/Tests/Reporting.antt =====
-- The report panel: a completed report, and the two ways in which it waits for ever.
use triggerlink.Prelude.{
  ◌≡◌, ◌⊎◌, inl, inr, refl, Option, none, some, [], ◌∷◌, true, Text, txt, ◌==◌,
}
use triggerlink.Value.{Value, num, nat, str, null, obj, field, end}
use triggerlink.Effects.{returned, State}
use triggerlink.Execx.{new_ctx}
use triggerlink.Example.Tasks.{Demo, Status, TaskState}
use triggerlink.Example.Workflows.{render}
use triggerlink.Example.Panel.{
  Panel, completed, running, first_panel, clicked, started, not_started, tick, polled, accepted,
  is_busy, follow_up, set_phase, phase_of, with_followup, Steps, start, next, click,
}
use triggerlink.Example.Panel.Following.{IsOnce, Steps-IsOnce}
use triggerlink.Example.Panel.Stopping.{IsStuck, Steps-IsStuck}
use triggerlink.Example.Routes.Reporting.{IsReported, after_poll, render-IsReported}
use triggerlink.Tests.Sample.{host}

-- the server knows the task `t`, which is completed
abbrev done : TaskState
done = record {
  status = some Status.completed;
  stage = some (txt "done");
  result = some null;
  error = none;
  updated_at = 7;
}

abbrev Served : Text → Option TaskState → Type 0
Served id answer = (id ≡ txt "t") ⊎ (answer ≡ none)

abbrev asked : Panel
asked = record (click first_panel) { polls = [] ∷ [] }

asked_lem : Steps Served first_panel asked
unfolding follow_up
asked_lem = next (next start (clicked refl)) (tick [] none refl)

abbrev waiting : Panel
waiting = record first_panel { phase = running (txt "t") none; polls = [] ∷ [] }

waiting_lem : Steps Served first_panel waiting
unfolding follow_up
waiting_lem = next asked_lem (started (accepted (txt "t")) refl)

abbrev finished : Panel
finished = record first_panel {
  phase = completed (txt "t") (some null) none;
  followup_sent = some (txt "t");
  polls = [] ∷ [];
  posted = (txt "t", some null) ∷ [];
  followups = 1;
}

finished_lem : Steps Served first_panel finished
unfolding follow_up phase_of
finished_lem =
    next (next waiting_lem (tick (txt "t") none refl))
      (polled (txt "t") [] ([] ∷ []) (some done) refl (inl refl))

steps-IsOnce_example : IsOnce finished
steps-IsOnce_example = Steps-IsOnce finished_lem

-- A late answer for the task `t`, after another task was completed: the follow-up of `t` is posted again.
again_test :
    (set_phase
      (phase_of (txt "t") (some done))
      (set_phase (phase_of (txt "u") (some done)) finished)).posted
    ≡ (txt "t", some null) ∷ (txt "u", some null) ∷ (txt "t", some null) ∷ []
unfolding follow_up phase_of ◌==◌
again_test = refl

-- Another late answer for the same task, after its follow-up was answered: the panel waits for the follow-up
-- again, which is not posted again.
label_test :
    let labelled =
      set_phase (with_followup true finished.phase) (record finished { followups = 0 }) in
    let late = set_phase (phase_of (txt "t") (some done)) labelled in
    (late.phase ≡ completed (txt "t") (some null) none) × (late.followups ≡ 0)
unfolding follow_up phase_of ◌==◌
label_test = (refl, refl)

-- The poll for the empty id is answered after the click.
abbrev stuck : Panel
stuck = record first_panel { phase = running [] none }

stuck_lem : Steps Served first_panel stuck
unfolding follow_up phase_of
stuck_lem = next waiting_lem (polled [] [] [] none refl (inr refl))

-- The click's request throws.
offline_lem : Steps Served first_panel stuck
unfolding follow_up
offline_lem = next (next start (clicked refl)) (not_started refl)

asked_again : Steps Served stuck stuck
unfolding follow_up phase_of
asked_again = next (next start (tick [] none refl)) (polled [] [] [] none refl (inr refl))

steps-IsStuck_example : IsStuck [] stuck × (is_busy stuck.phase ≡ true)
steps-IsStuck_example =
    Steps-IsStuck {Served = Served}
      (λ answer served. elim served [ inl e ↦ absurd (cc) | inr e ↦ e ])
      (record { stage = none; waits = refl; unanswered = refl; polls = tt; silent = refl })
      asked_again

abbrev rows : Value
rows = obj (field (txt "rows") (num (nat 128)) end)

abbrev show : Value → Text
show v = txt "[object Object]"

abbrev rendering : State Demo
rendering = record {
  ec = new_ctx (txt "build-report") none;
  claims = [];
  world = record { tasks = []; console = []; clock = 7 };
}

render-IsReported_example :
    (v : Value) × (s' : State Demo) × (render host show (txt "t") rows (str (txt "ok")) rendering
      ≡ (returned v, s'))
    × IsReported (txt "t") v waiting (after_poll (txt "t") s'.world [] waiting)
render-IsReported_example =
    render-IsReported host show (txt "t") rows (str (txt "ok")) rendering [] waiting refl
