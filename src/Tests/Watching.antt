-- ===== src/Tests/Watching.antt =====
-- The page of a run, polled twice: the later request is answered first.
use triggerlink.Prelude.{◌≡◌, refl, some, true, Text, txt, ◌==◌}
use triggerlink.Effects.{returned}
use triggerlink.Dashboard.{
  Detail, opened, receive, is_active, polling, moved, renamed, tick, answered, Steps, start, next,
}
use triggerlink.Dashboard.Polling.{IsConsistent, Steps-IsConsistent}

abbrev status : Text → Text
status s = s

abbrev asked_twice : Detail Text
asked_twice = record opened { in_flight = 2 }

abbrev ended : Detail Text
ended = receive status (returned (txt "completed")) (record asked_twice { in_flight = 1 })

abbrev stale : Detail Text
stale = receive status (returned (txt "running")) (record ended { in_flight = 0 })

ended_test : ended.terminal ≡ true
unfolding is_active ◌==◌
ended_test = refl

-- a page that has stopped shows an older state
stale_test : stale.polled.shown ≡ some (txt "running")
stale_test = refl

both_asked : Steps status 2 opened asked_twice
both_asked = next (next start (polling (tick refl))) (polling (tick refl))

-- the late answer, and then another run's address: the page polls again
until_moved : Steps status 2 ended (renamed stale)
until_moved = next (next start (polling (answered (returned (txt "running")) refl))) moved

settled_test : IsConsistent ended
settled_test =
    Steps-IsConsistent status
      (next both_asked (polling (answered (returned (txt "completed")) refl)))
