-- ===== src/Example/Routes/Reporting.antt =====
-- A report from its last step to the panel: render of examples/nextjs/app/api/triggerlink/route.ts, GET of
-- api/report/route.ts, and the poll of ReportPanel.tsx.
use triggerlink.Prelude.{
  ◌≡◌, ◌≢◌, ◌⊎◌, inl, inr, refl, none, some, List, ◌∷◌, false, Bool-cases, false≢true, sym, ◌∙◌,
  Text,
}
use triggerlink.Value.{Value, is_nullish}
use triggerlink.Execx.{Host}
use triggerlink.Effects.{returned, State}
use triggerlink.Example.Tasks.{Demo}
use triggerlink.Example.Workflows.{render}
use triggerlink.Example.Runs.{IsPublished, render-IsPublished}
use triggerlink.Example.Panel.{Panel, completed, is_sent, follow_up, set_phase, phase_of}
use triggerlink.Example.Panel.Following.{is_sent_iff}
use triggerlink.Example.Routes.{get_report}

-- The panel shows the result of a task, and its follow-up is posted, unless it was the last one before.
pub record IsReported (task_id : Text) (v : Value) (p q : Panel) : Type 0 where
  pub shown : q.phase ≡ completed task_id (some v) none
  pub sent : q.followup_sent ≡ some task_id
  pub posted :
      ((p.followup_sent ≡ some task_id) × (q.posted ≡ p.posted))
      ⊎ ((p.followup_sent ≢ some task_id) × (q.posted ≡ (task_id, some v) ∷ p.posted))

-- the panel after an answered poll
abbrev pub after_poll : Text → Demo → List Text → Panel → Panel
after_poll task_id w polls p =
    set_phase (phase_of task_id (get_report (some task_id) w)) (record p { polls = polls })

follow_up-IsReported :
    (task_id : Text) (v : Value) (p : Panel)
    → IsReported task_id v p (set_phase (completed task_id (some v) none) p)
unfolding follow_up
follow_up-IsReported task_id v p = elim (Bool-cases (is_sent p.followup_sent task_id)) [
  | inl before ↦
      let same = (is_sent_iff p.followup_sent task_id).0 before in
      rw before (record { shown = refl; sent = same; posted = inl (same, refl) })
  | inr fresh ↦ rw fresh (record {
    shown = refl;
    sent = refl;
    posted = inr (λ e. false≢true (sym fresh ∙ (is_sent_iff p.followup_sent task_id).1 e), refl);
  })
]

phase_of-IsPublished :
    (task_id : Text) (v : Value) (w : Demo)
    → IsPublished task_id v w
    → phase_of task_id (get_report (some task_id) w) ≡ completed task_id (some v) none
unfolding phase_of get_report
phase_of-IsPublished task_id v w (task, found, status, stage, result) = rw (found, status, result)

-- The step `render` of a report returns on every memo of `collect` but undefined and null; and whenever a
-- poll for the task is answered from the table that it leaves, the panel shows the task as completed
-- with the value that the step returned, and the follow-up of the task with that value is posted, unless
-- it was the last one that was posted.
pub render-IsReported :
    (host : Host) (show : Value → Text) (task_id : Text) (collected summary : Value)
    (s : State Demo) (polls : List Text) (p : Panel)
    → is_nullish collected ≡ false
    → (v : Value) × (s' : State Demo) × (render host show task_id collected summary s
        ≡ (returned v, s'))
      × IsReported task_id v p (after_poll task_id s'.world polls p)
render-IsReported host show task_id collected summary s polls p there =
    let (v, s', runs, published) = render-IsPublished host show task_id collected summary s there in
    (
      v,
      s',
      runs,
      rw (phase_of-IsPublished task_id v s'.world published) (
          let r = follow_up-IsReported task_id v (record p { polls = polls }) in
          record { shown = r.shown; sent = r.sent; posted = r.posted }),
    )
