-- ===== src/Example/Panel.antt =====
-- The report panel of the example: examples/nextjs/app/ReportPanel.tsx. Its requests are answered in any
-- order, and its effects run as its state is set.
pub mod Following
pub mod Stopping
pub mod Screen
use triggerlink.Prelude.{
  ℕ, zero, suc, ◌≡◌, ◌≢◌, Option, none, some, List, [], ◌∷◌, ◌++◌, Bool, true, false, Text, txt,
  ◌==◌, or_else, is_some, if◌then◌else◌,
}
use triggerlink.Prelude.Decimal.{print}
use triggerlink.Value.{Value}
use triggerlink.Example.Tasks.{Status, TaskState}

pub data Phase : Type 0 where
  idle : Phase
  running : (task_id : Text) (stage : Option Text) → Phase
  completed : (task_id : Text) (result : Option Value) (followup : Option Text) → Phase
  failed : (task_id : Text) (error : Option Text) → Phase

-- The panel, with what is on its way: the task ids that polls ask for, the clicks that are not answered,
-- and the follow-ups that were posted, the latest first, with how many are not answered.
pub record Panel : Type 0 where
  pub phase : Phase
  pub followup_sent : Option Text
  pub polls : List Text
  pub starts : ℕ
  pub posted : List (Text × Option Value)
  pub followups : ℕ

abbrev pub first_panel : Panel
first_panel = record {
  phase = idle;
  followup_sent = none;
  polls = [];
  starts = 0;
  posted = [];
  followups = 0;
}

-- `followupSent.current === taskId`
abbrev pub is_sent : Option Text → Text → Bool
is_sent none id = false
is_sent (some sent) id = sent == id

-- the effect that posts the follow-up of a completed task
unfoldable pub follow_up : Phase → Panel → Panel
follow_up (completed id result followup) p = if is_sent p.followup_sent id then p else record p {
  followup_sent = some id;
  posted = (id, result) ∷ p.posted;
  followups = suc p.followups;
}
follow_up phase p = p

-- `setPhase`, and the effects of the new phase
abbrev pub set_phase : Phase → Panel → Panel
set_phase phase p = follow_up phase (record p { phase = phase })

abbrev pub is_busy : Phase → Bool
is_busy (running id stage) = true
is_busy phase = false

-- a click on the button, up to the request
abbrev pub click : Panel → Panel
click p = set_phase (running [] none) (record p { starts = suc p.starts })

-- The answer to POST /api/report, as far as it is read.
pub data Started : Type 0 where
  accepted : (task_id : Text) → Started
  refused : (status : ℕ) (error : Option Text) → Started

-- the rest of `start`
abbrev pub receive_start : Started → Panel → Panel
receive_start (accepted id) p = set_phase (running id none) p
receive_start (refused status error) p =
    set_phase (failed [] (some (or_else error (txt "HTTP " ++ print status)))) p

-- the phase that the task of an answered poll comes to; no task is the answer `unknown`
unfoldable pub phase_of : Text → Option TaskState → Phase
phase_of id none = running id none
phase_of id (some task) = elim task.status [
  | some Status.completed ↦ completed id task.result none
  | some Status.failed ↦ failed id task.error
  | _ ↦ running id task.stage
]

-- what the answer to the follow-up does to the phase
abbrev pub with_followup : Bool → Phase → Phase
with_followup archived (completed id result followup) =
    completed id result (some (if archived then txt "✅ 已归档（见应用终端日志）" else txt "后续操作完成"))
with_followup archived phase = phase

-- A step of the panel. Where a request throws, nothing is set. `Served` is what a poll for an id may be
-- answered with.
pub data Step (Served : Text → Option TaskState → Type 0) : Panel → Panel → Type 0 where
  clicked : {p : Panel} → is_busy p.phase ≡ false → Step Served p (click p)
  started :
      {p : Panel} {n : ℕ} (answer : Started)
      → p.starts ≡ suc n
      → Step Served p (receive_start answer (record p { starts = n }))
  not_started : {p : Panel} {n : ℕ} → p.starts ≡ suc n → Step Served p (record p { starts = n })
  tick :
      {p : Panel} (id : Text) (stage : Option Text)
      → p.phase ≡ running id stage
      → Step Served p (record p { polls = id ∷ p.polls })
  polled :
      {p : Panel} (id : Text) (before after : List Text) (answer : Option TaskState)
      → p.polls ≡ before ++ id ∷ after
      → Served id answer
      → Step Served p (set_phase (phase_of id answer) (record p { polls = before ++ after }))
  not_polled :
      {p : Panel} (id : Text) (before after : List Text)
      → p.polls ≡ before ++ id ∷ after
      → Step Served p (record p { polls = before ++ after })
  followed :
      {p : Panel} {n : ℕ} (archived : Bool)
      → p.followups ≡ suc n
      → Step Served p (set_phase (with_followup archived p.phase) (record p { followups = n }))
  not_followed :
      {p : Panel} {n : ℕ} → p.followups ≡ suc n → Step Served p (record p { followups = n })

pub data Steps (Served : Text → Option TaskState → Type 0) : Panel → Panel → Type 0 where
  start : {p : Panel} → Steps Served p p
  next : {p q r : Panel} → Steps Served p q → Step Served q r → Steps Served p r

-- the text on the panel while a task is running
unfoldable pub stage_label : Option Text → Text
stage_label stage =
    let name = or_else stage [] in
    if name == txt "collect"
    then txt "① 采集数据"
    else if name == txt "analyze"
    then txt "② LLM 分析（慢）"
    else if name == txt "render"
    then txt "③ 渲染报告"
    else txt "排队/调度中"

abbrev pub button_label : Phase → Text
button_label phase = if is_busy phase then txt "后台执行中…" else txt "生成报告"
