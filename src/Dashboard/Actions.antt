-- ===== src/Dashboard/Actions.antt =====
-- The buttons of the page of one run (web/src/pages/RunDetailPage.jsx): stopping the run, and replaying it,
-- beside the polling of the page.
pub mod Replaying
pub mod Screen
use triggerlink.Prelude.{
  ℕ, zero, suc, ◌≡◌, Option, none, some, Bool, true, false, Text, txt, is_some, ◌&&◌, if◌then◌else◌,
}
use triggerlink.Execx.{Thrown, interrupt, error, other}
use triggerlink.Effects.{Outcome, returned, threw}
use triggerlink.Dashboard
use triggerlink.Dashboard.{Detail, is_active, receive, renamed, Polls}

-- The page, with the id of its address and the requests of the buttons that are on their way.
pub record View (A : Type 0) : Type 0 where
  pub id : Text
  pub detail : Detail A
  pub stopping : Bool
  pub stop_error : Option Text
  pub replaying : Bool
  pub replay_error : Option Text
  pub stops : ℕ
  pub replays : ℕ

abbrev pub opened : {A : Type 0} → Text → View A
opened id = record {
  id = id;
  detail = Dashboard.opened;
  stopping = false;
  stop_error = none;
  replaying = false;
  replay_error = none;
  stops = 0;
  replays = 0;
}

-- `e.message`: only the errors of `post` and of fetch come here
abbrev pub message_of : Thrown → Option Text
message_of (error message stack) = some message
message_of (interrupt op) = some (txt "step interrupt")
message_of (other shown) = none

module _ {A : Type 0} where
  -- `onStop`, after the user has confirmed, up to its request
  abbrev pub begin_stop : View A → View A
  begin_stop s = record s { stopping = true; stop_error = none; stops = suc s.stops }

  -- `onStop` from the answer on
  abbrev pub end_stop : {B : Type 0} → Outcome B → View A → View A
  end_stop (returned v) s = record s { stopping = false }
  end_stop (threw e) s = record s { stopping = false; stop_error = message_of e }

  abbrev pub begin_replay : View A → View A
  begin_replay s = record s { replaying = true; replay_error = none; replays = suc s.replays }

  -- `onReplay` from the answer on: the page moves to the new run, and the effect of a new id
  abbrev pub end_replay : Outcome Text → View A → View A
  end_replay (returned run_id) s = record s { id = run_id; detail = renamed s.detail }
  end_replay (threw e) s = record s { replaying = false; replay_error = message_of e }

module _ {A : Type 0} (status_of : A → Text) where
  -- the page is more than its first line, and which buttons it has
  abbrev shown_active : Option A → Bool
  shown_active none = false
  shown_active (some d) = is_active (status_of d)

  unfoldable pub has_stop : View A → Bool
  has_stop s = shown_active s.detail.polled.shown

  unfoldable pub has_replay : View A → Bool
  has_replay s = is_some s.detail.polled.shown && s.detail.terminal

  pub data Step : View A → View A → Type 0 where
    polling :
        {s : View A} (d : Detail A) → Polls status_of s.detail d → Step s (record s { detail = d })
    moved : {s : View A} (id : Text) → Step s (record s { id = id; detail = renamed s.detail })
    stop : {s : View A} → has_stop s ≡ true → s.stopping ≡ false → Step s (begin_stop s)
    stopped :
        {s : View A} {n : ℕ} (answer : Outcome Text)
        → s.stops ≡ suc n
        → Step s (end_stop answer (record s { stops = n }))
    replay : {s : View A} → has_replay s ≡ true → s.replaying ≡ false → Step s (begin_replay s)
    replayed :
        {s : View A} {n : ℕ} (answer : Outcome Text)
        → s.replays ≡ suc n
        → Step s (end_replay answer (record s { replays = n }))

  pub data Steps : View A → View A → Type 0 where
    start : {s : View A} → Steps s s
    next : {s t u : View A} → Steps s t → Step t u → Steps s u

-- the labels of the buttons
abbrev pub stop_label : {A : Type 0} → View A → Text
stop_label s = if s.stopping then txt "Stopping…" else txt "Stop run"

abbrev pub replay_label : {A : Type 0} → View A → Text
replay_label s = if s.replaying then txt "Replaying…" else txt "Replay"
