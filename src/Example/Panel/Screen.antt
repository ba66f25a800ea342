-- ===== src/Example/Panel/Screen.antt =====
-- What the report panel shows: the markup of examples/nextjs/app/ReportPanel.tsx.
use triggerlink.Prelude.{
  ◌≡◌, refl, Option, List, [], ◌∷◌, ◌++◌, Text, txt, or_else, if◌then◌else◌, is_empty,
}
use triggerlink.Value.{Value}
use triggerlink.Dashboard.Screen.{Item, words, link, button, offers}
use triggerlink.Example.Panel.{
  Phase, idle, running, completed, failed, Panel, is_busy, stage_label, button_label,
}

-- What the button does.
pub data Action : Type 0 where
  starting : Action

-- `stringify` is `JSON.stringify(v, null, 2)`.
module _ (stringify : Option Value → Text) where
  abbrev pub below : Phase → List (Item Action)
  below idle = []
  below (running id stage) =
      words (txt "状态：" ++ stage_label stage)
      ∷ words (12288 ∷ txt "（task_id: " ++ ((if is_empty id then txt "…" else id) ++ txt "）"))
      ∷ words (txt "函数正在后台由平台推进，可同时打开 ")
      ∷ link (txt "http://localhost:8288/dashboard") (txt "平台 Dashboard")
      ∷ words (txt " 查看 run 时间线。")
      ∷ []
  below (completed id result followup) =
      words (txt "✅ 任务完成，平台 Run 详情可见同样结果。后续操作：" ++ or_else followup (txt "执行中…"))
      ∷ words (stringify result)
      ∷ []
  below (failed id error) = words (txt "❌ 任务失败：" ++ or_else error (txt "未知错误")) ∷ []

  unfoldable pub screen : Panel → List (Item Action)
  screen p =
      words (txt "端到端场景：生成经营报告（耗时任务）")
      ∷ button (button_label p.phase) (is_busy p.phase) starting
      ∷ below p.phase

  offers-phase :
      (phase : Phase)
      → offers (button (button_label phase) (is_busy phase) starting ∷ below phase)
        ≡ (if is_busy phase then [] else starting ∷ [])
  unfolding offers
  offers-phase idle = refl
  offers-phase (running id stage) = refl
  offers-phase (completed id result followup) = refl
  offers-phase (failed id error) = refl

  -- The panel offers a new report, unless one is being made.
  pub offers-screen :
      (p : Panel) → offers (screen p) ≡ (if is_busy p.phase then [] else starting ∷ [])
  unfolding screen offers
  offers-screen p = offers-phase p.phase
