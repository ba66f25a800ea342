-- ===== src/Dashboard/Actions/Screen.antt =====
-- What the page of one run shows: the markup of RunDetailPage in web/src/pages/RunDetailPage.jsx.
use triggerlink.Prelude.{
  ℕ, suc, none, some, Option, List, [], ◌∷◌, ◌++◌, Bool, Text, txt, if◌then◌else◌,
}
use triggerlink.Prelude.Decimal.{print}
use triggerlink.Value.{Value, Values, nil, cons, num, nan, nat, arr, truthy}
use triggerlink.Dashboard.{is_active}
use triggerlink.Dashboard.Screen.{
  Item, words, badge, tree, button, when, with_text, connection_lost,
}
use triggerlink.Dashboard.Timeline.{StepRecord, RunTimes}
use triggerlink.Dashboard.Timeline.Screen.{gantt}
use triggerlink.Dashboard.Actions.{View, stop_label, replay_label}

-- The answer to `fetchRun`.
pub record Run : Type 0 where
  pub id : Text
  pub status : Text
  pub function_id : Text
  pub attempt : ℕ
  pub created_at : Text
  pub ended_at : Option Text
  pub error : Option Text
  pub batch : Bool
  pub event_name : Text
  pub event_data : Value
  pub output : Value

pub record Loaded : Type 0 where
  pub run : Run
  pub steps : List StepRecord

abbrev pub status_of : Loaded → Text
status_of d = d.run.status

-- What a control does: the two buttons, and the row of a step.
pub data Action : Type 0 where
  stopping replaying : Action
  toggling : ℕ → Action

abbrev count : Values → ℕ
count nil = 0
count (cons v vs) = suc (count vs)

-- `Array.isArray(v) ? v.length : '?'`
abbrev pub batch_size : Value → Text
batch_size (arr vs) = print (count vs)
batch_size v = txt "?"

-- `v && …`: of a value that is falsy React shows a number, and nothing of the others
abbrev pub falsy_words : Value → List (Item Action)
falsy_words (num (nat n)) = words (print n) ∷ []
falsy_words (num nan) = words (txt "NaN") ∷ []
falsy_words v = []

abbrev pub with_value : Value → List (Item Action) → List (Item Action)
with_value v items = if truthy v then items else falsy_words v

-- `fmt` prints a time for the user's locale, `time` reads one as milliseconds.
module _ (fmt : Text → Text) (time : Text → ℕ) (is_open : ℕ → Bool) (now : ℕ) where
  abbrev ended_time : Option Text → Option ℕ
  ended_time none = none
  ended_time (some t) = some (time t)

  abbrev pub times : Run → RunTimes
  times run = record {
    status = run.status;
    created_at = time run.created_at;
    ended_at = ended_time run.ended_at;
  }

  -- the page, once a run is there
  unfoldable pub page : View Loaded → Loaded → List (Item Action)
  page s d =
      connection_lost s.detail.polled.offline
      ++ with_text s.stop_error (λ e. words (txt "Stop failed: " ++ e) ∷ [])
      ++ with_text s.replay_error (λ e. words (txt "Replay failed: " ++ e) ∷ [])
      ++ words d.run.id
        ∷ badge d.run.status
        ∷ when (is_active d.run.status) (button (stop_label s) s.stopping stopping ∷ [])
      ++ when s.detail.terminal (button (replay_label s) s.replaying replaying ∷ [])
      ++ words (txt "Function " ++ d.run.function_id)
        ∷ words (txt "Attempt " ++ print d.run.attempt)
        ∷ words (txt "Queued " ++ fmt d.run.created_at)
        ∷ with_text d.run.ended_at (λ t. words (txt "Ended " ++ fmt t) ∷ [])
      ++ with_text d.run.error (λ e. words e ∷ [])
      ++ words (
          (if d.run.batch then txt "Trigger events " else txt "Trigger event ") ++ d.run.event_name)
        ∷ when d.run.batch (words (txt "batch of " ++ batch_size d.run.event_data) ∷ [])
      ++ tree d.run.event_data
        ∷ with_value d.run.output (words (txt "Output") ∷ tree d.run.output ∷ [])
      ++ words (txt "Step timeline") ∷ gantt toggling is_open d.steps (times d.run) now

  abbrev pub page_of : View Loaded → Option Loaded → List (Item Action)
  page_of s none =
      if s.detail.polled.offline
      then words (txt "Failed to load (run may not exist), retrying…") ∷ []
      else words (txt "Loading…") ∷ []
  page_of s (some d) = page s d

  unfoldable pub screen : View Loaded → List (Item Action)
  screen s = page_of s s.detail.polled.shown
