-- ===== src/Dashboard/Polling.antt =====
-- What the pages of the dashboard rely on in web/src/usePolling.js.
use triggerlink.Prelude.{ℕ, ◌≡◌, refl, arith, is_some, true, false≢true, Text}
use triggerlink.Effects.{Outcome, returned, threw}
use triggerlink.Dashboard.{
  Detail, opened, receive, Step, polling, moved, tick, answered, Steps, start, next,
}

-- The banner says that the connection is lost exactly while there is an error, and a page that has seen
-- the end of its run has a run to show.
pub record IsConsistent {A : Type 0} (s : Detail A) : Type 0 where
  pub offline : s.polled.offline ≡ is_some s.polled.error
  pub ended : s.terminal ≡ true → is_some s.polled.shown ≡ true

module _ {A : Type 0} (status_of : A → Text) where
  receive-IsConsistent :
      (answer : Outcome A) (s : Detail A)
      → IsConsistent s
      → IsConsistent (receive status_of answer s)
  receive-IsConsistent (returned d) s ok = record { offline = refl; ended = λ e. refl }
  receive-IsConsistent (threw x) s ok = record {
    offline = refl;
    ended = λ e. ok.ended (ground (arith, e));
  }

  Step-IsConsistent : {s t : Detail A} → IsConsistent s → Step status_of s t → IsConsistent t
  Step-IsConsistent ok (polling (tick running)) = record { offline = ok.offline; ended = ok.ended }
  Step-IsConsistent ok moved = record { offline = ok.offline; ended = λ e. absurd (false≢true e) }
  Step-IsConsistent ok (polling (answered {s = s} {n = n} answer flying)) =
      receive-IsConsistent answer (record s { in_flight = n })
        (record { offline = ok.offline; ended = ok.ended })

  -- In every state that the page of a run comes to, whatever is answered and in whatever order: the
  -- banner is on exactly while there is an error, and a page that has seen the end of its run has data
  -- to show.
  pub Steps-IsConsistent : {n : ℕ} {s : Detail A} → Steps status_of n opened s → IsConsistent s
  Steps-IsConsistent start = record { offline = refl; ended = λ e. absurd (false≢true e) }
  Steps-IsConsistent (next steps step) = Step-IsConsistent (Steps-IsConsistent steps) step
