-- ===== src/Example/Panel/Following.antt =====
-- The follow-ups of examples/nextjs/app/ReportPanel.tsx, and the tasks it shows.
use triggerlink.Prelude.{
  ℕ, suc, ◌≡◌, ◌≢◌, ◌↔◌, false≢true, refl, sym, ap, ◌∙◌, Option, none, some, List, [], ◌∷◌, ◌++◌,
  true, Bool-cases, inl, inr, Text, ==_iff,
}
use triggerlink.Value.{Value}
use triggerlink.Example.Tasks.{TaskState}
use triggerlink.Example.Panel.{
  Started, accepted, refused, receive_start, Phase, idle, running, completed, failed, Panel,
  first_panel, is_sent, follow_up, set_phase, Step, clicked, started, not_started, tick, polled,
  not_polled, followed, not_followed, Steps, start, next,
}

-- no two follow-ups in a row are of one task
abbrev pub IsAlternating : List (Text × Option Value) → Type 0
IsAlternating [] = Unit
IsAlternating (f ∷ []) = Unit
IsAlternating (f ∷ g ∷ fs) = (f.0 ≢ g.0) × IsAlternating (g ∷ fs)

abbrev pub latest : List (Text × Option Value) → Option Text
latest [] = none
latest (f ∷ fs) = some f.0

-- a completed task is the one whose follow-up was posted last
abbrev pub IsFollowed : Phase → Option Text → Type 0
IsFollowed (completed id result followup) sent = sent ≡ some id
IsFollowed phase sent = Unit

pub record IsOnce (p : Panel) : Type 0 where
  pub recorded : p.followup_sent ≡ latest p.posted
  pub alternating : IsAlternating p.posted
  pub followed : IsFollowed p.phase p.followup_sent

IsAlternating-cons :
    (id : Text) (result : Option Value) (posted : List (Text × Option Value))
    → latest posted ≢ some id
    → IsAlternating posted
    → IsAlternating ((id, result) ∷ posted)
IsAlternating-cons id result [] fresh h = tt
IsAlternating-cons id result (f ∷ fs) fresh h = (λ e. fresh (ap some (sym e)), h)

pub is_sent_iff : (sent : Option Text) (id : Text) → (is_sent sent id ≡ true) ↔ (sent ≡ some id)
is_sent_iff none id = (λ h. absurd (cc), λ e. absurd (cc))
is_sent_iff (some sent) id = (λ h. ap some ((==_iff sent id).0 h), λ e. (==_iff sent id).1 (cc))

set_phase-IsOnce :
    (phase : Phase) (p : Panel)
    → p.followup_sent ≡ latest p.posted
    → IsAlternating p.posted
    → IsOnce (set_phase phase p)
unfolding follow_up
set_phase-IsOnce idle p r a = record { recorded = r; alternating = a; followed = tt }
set_phase-IsOnce (running id stage) p r a = record { recorded = r; alternating = a; followed = tt }
set_phase-IsOnce (failed id error) p r a = record { recorded = r; alternating = a; followed = tt }
set_phase-IsOnce (completed id result followup) p r a =
    elim (Bool-cases (is_sent p.followup_sent id)) [
      | inl before ↦ rw before (record {
        recorded = r;
        alternating = a;
        followed = (is_sent_iff p.followup_sent id).0 before;
      })
      | inr fresh ↦ rw fresh (record {
        recorded = refl;
        alternating =
            IsAlternating-cons id result p.posted
              (λ e. false≢true (sym fresh ∙ (is_sent_iff p.followup_sent id).1 (r ∙ e))) a;
        followed = refl;
      })
    ]

receive_start-IsOnce :
    (answer : Started) (p : Panel)
    → p.followup_sent ≡ latest p.posted
    → IsAlternating p.posted
    → IsOnce (receive_start answer p)
receive_start-IsOnce (accepted id) p r a = set_phase-IsOnce (running id none) p r a
receive_start-IsOnce (refused status error) p r a = set_phase-IsOnce (failed [] _) p r a

-- the phase and the follow-ups are as they were
kept :
    {p : Panel} (polls : List Text) (starts followups : ℕ)
    → IsOnce p
    → IsOnce (record p { polls = polls; starts = starts; followups = followups })
kept polls starts followups ok = record {
  recorded = ok.recorded;
  alternating = ok.alternating;
  followed = ok.followed;
}

Step-IsOnce :
    {Served : Text → Option TaskState → Type 0} {p q : Panel}
    → IsOnce p
    → Step Served p q
    → IsOnce q
Step-IsOnce {p} ok (clicked free) =
    set_phase-IsOnce _ (record p { starts = suc p.starts }) ok.recorded ok.alternating
Step-IsOnce {p} ok (started {n = n} answer waiting) =
    receive_start-IsOnce answer (record p { starts = n }) ok.recorded ok.alternating
Step-IsOnce ok (not_started waiting) = kept _ _ _ ok
Step-IsOnce ok (tick id stage polling) = kept _ _ _ ok
Step-IsOnce {p} ok (polled id before after answer flying served) =
    set_phase-IsOnce _ (record p { polls = before ++ after }) ok.recorded ok.alternating
Step-IsOnce ok (not_polled id before after flying) = kept _ _ _ ok
Step-IsOnce {p} ok (followed {n = n} archived waiting) =
    set_phase-IsOnce _ (record p { followups = n }) ok.recorded ok.alternating
Step-IsOnce ok (not_followed waiting) = kept _ _ _ ok

-- In every state that the panel comes to, whatever is answered and in whatever order: a task that is
-- shown as completed is the one whose follow-up was posted last, and no two follow-ups in a row are of
-- one task. So repeated answers for one task post its follow-up once, where none of another task comes
-- between them.
pub Steps-IsOnce :
    {Served : Text → Option TaskState → Type 0} {p : Panel} → Steps Served first_panel p → IsOnce p
Steps-IsOnce start = record { recorded = refl; alternating = tt; followed = tt }
Steps-IsOnce (next before step) = Step-IsOnce (Steps-IsOnce before) step
