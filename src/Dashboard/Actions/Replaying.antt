-- ===== src/Dashboard/Actions/Replaying.antt =====
-- How many requests the buttons of web/src/pages/RunDetailPage.jsx make, and a replay that succeeds.
use triggerlink.Prelude.{
  ℕ, suc, ◌≡◌, ◌≤◌, refl, sym, ◌∙◌, true, false≢true, arith, Text, if◌then◌else◌,
}
use triggerlink.Effects.{Outcome, returned, threw}
use triggerlink.Dashboard.Actions.{
  View, opened, end_stop, end_replay, Step, polling, moved, stop, stopped, replay, replayed, Steps,
  start, next,
}

-- A button is disabled while its request is on its way, and there is one at most.
pub record IsSingle {A : Type 0} (s : View A) : Type 0 where
  pub stops : s.stops ≡ (if s.stopping then 1 else 0)
  pub replays : s.replays ≤ (if s.replaying then 1 else 0)

-- The page is replaying, and no answer can end that.
pub record IsSpent {A : Type 0} (s : View A) : Type 0 where
  pub replaying : s.replaying ≡ true
  pub replays : s.replays ≡ 0

module _ {A : Type 0} (status_of : A → Text) where
  end_stop-IsSingle :
      (n : ℕ) (answer : Outcome Text) (s : View A)
      → s.stops ≡ suc n
      → IsSingle s
      → IsSingle (end_stop answer (record s { stops = n }))
  end_stop-IsSingle n (returned v) s flying ok = record {
    stops = ground (arith, ok.stops, flying);
    replays = ok.replays;
  }
  end_stop-IsSingle n (threw e) s flying ok = record {
    stops = ground (arith, ok.stops, flying);
    replays = ok.replays;
  }

  end_replay-IsSingle :
      (n : ℕ) (answer : Outcome Text) (s : View A)
      → s.replays ≡ suc n
      → IsSingle s
      → IsSingle (end_replay answer (record s { replays = n }))
  end_replay-IsSingle n (returned v) s flying ok = record {
    stops = ok.stops;
    replays = ground (arith, ok.replays, flying);
  }
  end_replay-IsSingle n (threw e) s flying ok = record {
    stops = ok.stops;
    replays = ground (arith, ok.replays, flying);
  }

  Step-IsSingle : {s t : View A} → IsSingle s → Step status_of s t → IsSingle t
  Step-IsSingle ok (polling d step) = record { stops = ok.stops; replays = ok.replays }
  Step-IsSingle ok (moved id) = record { stops = ok.stops; replays = ok.replays }
  Step-IsSingle ok (stop there free) = record {
    stops = ground (arith, ok.stops, free);
    replays = ok.replays;
  }
  Step-IsSingle {s} ok (stopped {n = n} answer flying) = end_stop-IsSingle n answer s flying ok
  Step-IsSingle ok (replay there free) = record {
    stops = ok.stops;
    replays = ground (arith, ok.replays, free);
  }
  Step-IsSingle {s} ok (replayed {n = n} answer flying) = end_replay-IsSingle n answer s flying ok

  -- In every state of the page: the button to stop the run is disabled exactly while a request to cancel
  -- is on its way, and that is one at most; and there is one request to replay at most, while the button
  -- to replay is disabled.
  pub Steps-IsSingle : {id : Text} {s : View A} → Steps status_of (opened id) s → IsSingle s
  Steps-IsSingle start = record { stops = refl; replays = omega arith }
  Steps-IsSingle (next before step) = Step-IsSingle (Steps-IsSingle before) step

  Step-IsSpent : {s t : View A} → IsSpent s → Step status_of s t → IsSpent t
  Step-IsSpent spent (polling d step) = record {
    replaying = spent.replaying;
    replays = spent.replays;
  }
  Step-IsSpent spent (moved id) = record { replaying = spent.replaying; replays = spent.replays }
  Step-IsSpent spent (stop there free) = record {
    replaying = spent.replaying;
    replays = spent.replays;
  }
  Step-IsSpent spent (stopped (returned v) flying) = record {
    replaying = spent.replaying;
    replays = spent.replays;
  }
  Step-IsSpent spent (stopped (threw e) flying) = record {
    replaying = spent.replaying;
    replays = spent.replays;
  }
  Step-IsSpent spent (replay there free) = absurd (false≢true (sym free ∙ spent.replaying))
  Step-IsSpent spent (replayed answer flying) = absurd (omega (arith, spent.replays, flying))

  Steps-IsSpent : {s t : View A} → IsSpent s → Steps status_of s t → IsSpent t
  Steps-IsSpent spent start = spent
  Steps-IsSpent spent (next before step) = Step-IsSpent (Steps-IsSpent spent before) step

  -- After a request to replay has succeeded, in every later state of the page, on the new run as well, the
  -- button to replay stays disabled and no other request to replay is made.
  pub Steps-end_replay :
      {id : Text} {s t : View A} {n : ℕ} (run_id : Text)
      → Steps status_of (opened id) s
      → s.replays ≡ suc n
      → Steps status_of (end_replay (returned run_id) (record s { replays = n })) t
      → (t.replaying ≡ true) × (t.replays ≡ 0)
  Steps-end_replay run_id reached flying later =
      let single = Steps-IsSingle reached in
      let spent =
        Steps-IsSpent
          (record {
            replaying = ground (arith, single.replays, flying);
            replays = ground (arith, single.replays, flying);
          })
          later in
      (spent.replaying, spent.replays)
