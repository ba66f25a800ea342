-- ===== src/Example/Panel/Stopping.antt =====
-- When the panel of examples/nextjs/app/ReportPanel.tsx can no longer leave the state `running`.
use triggerlink.Prelude.{
  ◌≡◌, sym, ap, ◌∙◌, false≢true, Option, none, List, [], ◌∷◌, ◌++◌, true, arith, Text, All,
  All-append, All-append_left, All-append_right, subst,
}
use triggerlink.Value.{Value}
use triggerlink.Example.Tasks.{TaskState}
use triggerlink.Example.Panel.{
  running, Panel, follow_up, phase_of, is_busy, Step, clicked, started, not_started, tick, polled,
  not_polled, followed, not_followed, Steps, start, next,
}

-- The panel waits for the task of the empty id, and no click is on its way that could name another.
pub record IsStuck (posted : List (Text × Option Value)) (p : Panel) : Type 0 where
  pub stage : Option Text
  pub waits : p.phase ≡ running [] stage
  pub unanswered : p.starts ≡ 0
  pub polls : All (λ id. id ≡ []) p.polls
  pub silent : p.posted ≡ posted

polls_left :
    (ids before after : List Text) (id : Text)
    → All (λ i. i ≡ []) ids
    → ids ≡ before ++ id ∷ after
    → (id ≡ []) × All (λ i. i ≡ []) (before ++ after)
polls_left ids before after id empty e =
    let all : All (λ i. i ≡ []) (before ++ id ∷ after) = subst (All (λ i. i ≡ [])) e empty in
    let (here, later) = All-append_right (λ i. i ≡ []) before (id ∷ after) all in
    (here, All-append (λ i. i ≡ []) before after (All-append_left (λ i. i ≡ []) before _ all) later)

module _ {Served : Text → Option TaskState → Type 0}
    (unknown : (answer : Option TaskState) → Served [] answer → answer ≡ none)
    {posted : List (Text × Option Value)} where
  Step-IsStuck : {p q : Panel} → IsStuck posted p → Step Served p q → IsStuck posted q
  unfolding follow_up phase_of
  Step-IsStuck {p} s (clicked free) = absurd (false≢true (sym free ∙ ap is_busy s.waits))
  Step-IsStuck {p} s (started {n = n} answer waiting) =
      absurd (omega (arith, s.unanswered, waiting))
  Step-IsStuck {p} s (not_started waiting) = absurd (omega (arith, s.unanswered, waiting))
  Step-IsStuck {p} s (tick id stage polling) = record {
    stage = s.stage;
    waits = s.waits;
    unanswered = s.unanswered;
    polls = (cc (s.waits, polling), s.polls);
    silent = s.silent;
  }
  Step-IsStuck {p} s (polled id before after answer flying served) =
      let (empty, left) = polls_left p.polls before after id s.polls flying in
      let e = unknown answer (subst (λ i. Served i answer) empty served) in
      record {
        stage = none;
        waits = rw (e, empty);
        unanswered = rw e s.unanswered;
        polls = rw e left;
        silent = rw e s.silent;
      }
  Step-IsStuck {p} s (not_polled id before after flying) = record {
    stage = s.stage;
    waits = s.waits;
    unanswered = s.unanswered;
    polls = (polls_left p.polls before after id s.polls flying).1;
    silent = s.silent;
  }
  Step-IsStuck {p} s (followed {n = n} archived waiting) = record {
    stage = s.stage;
    waits = rw s.waits;
    unanswered = rw s.waits s.unanswered;
    polls = rw s.waits s.polls;
    silent = rw s.waits s.silent;
  }
  Step-IsStuck {p} s (not_followed waiting) = record {
    stage = s.stage;
    waits = s.waits;
    unanswered = s.unanswered;
    polls = s.polls;
    silent = s.silent;
  }

-- A panel that waits for the task of the empty id, with no click on its way and no poll for another
-- task, stays so: its button stays disabled, and it posts no follow-up any more, whatever is answered
-- and in whatever order. The server knows no task of the empty id.
pub Steps-IsStuck :
    {Served : Text → Option TaskState → Type 0} {posted : List (Text × Option Value)} {p q : Panel}
    → ((answer : Option TaskState) → Served [] answer → answer ≡ none)
    → IsStuck posted p
    → Steps Served p q
    → IsStuck posted q × (is_busy q.phase ≡ true)
Steps-IsStuck unknown stuck start = (stuck, rw stuck.waits)
Steps-IsStuck unknown stuck (next before step) =
    let (still, busy) = Steps-IsStuck unknown stuck before in
    let after = Step-IsStuck unknown still step in (after, rw after.waits)
