-- ===== src/Tests/Replaying.antt =====
-- A run that has ended is replayed, and the new run is watched to its end.
use triggerlink.Prelude.{◌≡◌, refl, true, false, Text, txt, ◌==◌}
use triggerlink.Effects.{returned}
use triggerlink.Dashboard
use triggerlink.Dashboard.{Detail, is_active, tick, answered}
use triggerlink.Dashboard.Actions.{
  View, opened, begin_replay, end_replay, has_replay, polling, replay, Steps, start, next,
  replay_label,
}
use triggerlink.Dashboard.Actions.Replaying.{Steps-end_replay}

abbrev status : Text → Text
status s = s

-- a run that was seen to have ended
abbrev ended : Detail Text
ended = Dashboard.receive status (returned (txt "completed")) Dashboard.opened

abbrev before : View Text
before = record (opened (txt "r1")) { detail = ended }

abbrev clicked : View Text
clicked = begin_replay before

abbrev moved : View Text
moved = end_replay (returned (txt "r2")) before

clicked_lem : Steps status (opened (txt "r1")) clicked
unfolding has_replay is_active ◌==◌
clicked_lem =
    next
      (next (next start (polling (record Dashboard.opened { in_flight = 1 }) (tick refl)))
        (polling ended (answered (returned (txt "completed")) refl)))
      (replay refl refl)

abbrev after : View Text
after = record (record before { id = txt "r2" }) { replaying = true }

watched : Steps status (record after { detail = record ended { terminal = false } }) after
unfolding is_active ◌==◌
watched =
    next (next start (polling (record ended { terminal = false; in_flight = 1 }) (tick refl)))
      (polling ended (answered (returned (txt "completed")) refl))

steps-end_replay_example : (after.replaying ≡ true) × (after.replays ≡ 0)
steps-end_replay_example = Steps-end_replay status (txt "r2") clicked_lem refl watched

-- the new run has ended, and it cannot be replayed
label_test : replay_label after ≡ txt "Replaying…"
label_test = refl
