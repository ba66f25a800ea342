-- ===== src/Example/Runs.antt =====
-- What a run of the functions of examples/nextjs/app/api/triggerlink/route.ts does.
use triggerlink.Prelude.{
  ℕ, suc, ◌+◌, ◌≡◌, ◌∙◌, ◌⊎◌, inl, inr, refl, sym, ap, subst, lookup, lookup-insert_self, Option,
  false, some, none, List, [], ◌∷◌, ◌++◌, Text, txt, append_assoc,
}
use triggerlink.Prelude.Decimal.{print}
use triggerlink.Value.{
  undefined, null, bool, arr, prop, is_nullish, Value, nat, num, str, obj, field, end,
}
use triggerlink.Execx.{Host, Opcode, interrupt}
use triggerlink.Execx.Keys.{CollisionFree}
use triggerlink.Effects.{Outcome, returned, threw, State, Exec, ◌>>=◌, then_do}
use triggerlink.Step.{run}
use triggerlink.Step.Memo.{run_cases}
use triggerlink.Function.{HandlerContext, TriggerFunction}
use triggerlink.Durable.{Platform, Flow, finish, step, done, handler_of, direct, drive}
use triggerlink.Durable.Refinement.{drive-eq-direct}
use triggerlink.Example.Tasks.{Demo, TaskState, running, completed, merge, update_task, get_task}
use triggerlink.Example.Workflows.{
  log, pause, shown, process_doc, build_report, report_steps, note_failure, collect, analyze,
  render, publish, report_of, at_stage, read,
}

-- process-doc as a workflow
abbrev pub document : Value → Text → Value → Value
document parsed doc_id vectors = obj (
    field (txt "doc_id") (str doc_id)
      (field (txt "parsed") parsed (field (txt "vectors") vectors end)))

four_lines :
    (before : List Text) (a b c d : Text)
    → (((before ++ a ∷ []) ++ b ∷ []) ++ c ∷ []) ++ d ∷ [] ≡ before ++ a ∷ b ∷ c ∷ d ∷ []
four_lines before a b c d =
    append_assoc ((before ++ a ∷ []) ++ b ∷ []) (c ∷ []) (d ∷ [])
    ∙ append_assoc (before ++ a ∷ []) (b ∷ []) (c ∷ d ∷ [])
    ∙ append_assoc before (a ∷ []) (b ∷ c ∷ d ∷ [])

module _ (show : Value → Text) (doc_id : Text) where
  abbrev process_flow : Flow Demo
  process_flow =
      step (txt "parse")
        (λ w. (
          done (str (txt "parsed:" ++ doc_id)),
          log (txt "[nextjs] EXECUTE parse (doc=" ++ (doc_id ++ txt ")")) w,
        ))
        (λ parsed.
          step (txt "chunk") (λ w. (done (num (nat 12)), log (txt "[nextjs] EXECUTE chunk") w))
            (λ chunks.
              step (txt "embed")
                (λ w. (
                  done (str (txt "vectors-ok")),
                  pause 2000 (
                      log
                        (txt "[nextjs] EXECUTE embed ("
                          ++ (shown show chunks ++ txt " chunks, slow...)"))
                        w),
                ))
                (λ vectors.
                  step (txt "store")
                    (λ w. (done (str (txt "stored")), log (txt "[nextjs] EXECUTE store") w))
                    (λ stored. finish (document parsed doc_id vectors)))))

  process_doc-flow : (host : Host) → process_doc host show doc_id ≡ handler_of host process_flow
  unfolding process_doc handler_of
  process_doc-flow host = refl

  abbrev pub execute_lines : List Text
  execute_lines =
      (txt "[nextjs] EXECUTE parse (doc=" ++ (doc_id ++ txt ")"))
      ∷ txt "[nextjs] EXECUTE chunk"
      ∷ txt "[nextjs] EXECUTE embed (12 chunks, slow...)"
      ∷ txt "[nextjs] EXECUTE store"
      ∷ []

  direct-process_flow :
      (host : Host) (platform : Platform Demo) (fuel : ℕ) (w : Demo)
      → direct host platform (suc (suc (suc (suc (suc fuel))))) process_flow w
        ≡ some (
          document (str (txt "parsed:" ++ doc_id)) doc_id (str (txt "vectors-ok")),
          record w { console = w.console ++ execute_lines; clock = w.clock + 2000 },
        )
  unfolding direct print
  direct-process_flow host platform fuel w =
      ap
        (λ c. some (
          document (str (txt "parsed:" ++ doc_id)) doc_id (str (txt "vectors-ok")),
          record w { console = c; clock = w.clock + 2000 },
        ))
        (four_lines w.console _ _ _ _)

-- A run of process-doc ends within five callbacks, one for each of its steps and one for its return: its
-- result holds the parsed text and the vectors, each step has been executed exactly once and in order
-- (the console shows it), and the clock has moved by the pause of the slow step only. SHA-256 has no
-- collision among the function's keys.
pub drive-process_doc :
    (host : Host) (platform : Platform Demo) (show : Value → Text) (doc_id f : Text)
    (fn : TriggerFunction Demo) (context : HandlerContext) (fuel : ℕ) (w : Demo)
    → fn.handler context ≡ process_doc host show doc_id
    → CollisionFree host f
    → drive platform (suc (suc (suc (suc (suc fuel))))) fn f context [] w
      ≡ some (
        document (str (txt "parsed:" ++ doc_id)) doc_id (str (txt "vectors-ok")),
        record w { console = w.console ++ execute_lines show doc_id; clock = w.clock + 2000 },
      )
drive-process_doc host platform show doc_id f fn context fuel w runs free =
    drive-eq-direct host platform f fn context (process_flow show doc_id) _ w
      (runs ∙ process_doc-flow show doc_id host) free
    ∙ direct-process_flow show doc_id host platform fuel w

-- The computation returns, or ends in an interrupt.
abbrev pub IsStep : {A : Type 0} → Outcome A × State Demo → Type 0
IsStep {A} r =
    ((v : A) × (s' : State Demo) × (r ≡ (returned v, s')))
    ⊎ ((op : Opcode) × (s' : State Demo) × (r ≡ (threw (interrupt op), s')))

abbrev Steps : {A : Type 0} → Exec Demo A → State Demo → Type 0
Steps m s = IsStep (m s)

run-Steps :
    (host : Host) (id : Text) (fn : Exec Demo Value) (s : State Demo) → Steps (run host id fn) s
run-Steps host id fn s = elim (run_cases host id fn s) [
  | inl (v, found, how) ↦ inl (v, _, how)
  | inr (op, missing, how) ↦ inr (op, _, how)
]

bind-Steps :
    {A B : Type 0} (m : Exec Demo A) (k : A → Exec Demo B) (s : State Demo)
    → Steps m s
    → ((v : A) (t : State Demo) → Steps (k v) t)
    → Steps (m >>= k) s
bind-Steps m k s (inl (v, t, how)) rest = elim (rest v t) [
  | inl (v', t', how') ↦ inl (v', t', ap (λ r. then_do r k) how ∙ how')
  | inr (op, t', how') ↦ inr (op, t', ap (λ r. then_do r k) how ∙ how')
]
bind-Steps m k s (inr (op, t, how)) rest = inr (op, t, ap (λ r. then_do r k) how)

note_failure_skipped :
    (task_id : Text) (m : Exec Demo Value) (s : State Demo)
    → Steps m s
    → note_failure task_id (m s) ≡ m s
note_failure_skipped task_id m s (inl (v, t, how)) = ap (note_failure task_id) how ∙ sym how
note_failure_skipped task_id m s (inr (op, t, how)) = ap (note_failure task_id) how ∙ sym how

-- build-report never records a failure: whatever the memos and the table hold, what its `try` does is a
-- return or an interrupt, and its `catch` passes both on, so that the call is that of the steps alone.
-- An error in a step becomes an interrupt before the `catch` sees it.
pub build_report-report_steps :
    (host : Host) (show : Value → Text) (task_id : Text) (s : State Demo)
    → (build_report host show task_id s ≡ report_steps host show task_id s)
      × IsStep (build_report host show task_id s)
unfolding build_report report_steps
build_report-report_steps host show task_id s =
    let steps =
      bind-Steps (run host (txt "collect") (collect host show task_id)) _ s (run-Steps host _ _ s)
        (λ collected t.
          bind-Steps (run host (txt "analyze") (analyze host show task_id collected)) _ t
            (run-Steps host _ _ t) (λ summary u. run-Steps host _ _ u)) in
    let same = note_failure_skipped task_id (report_steps host show task_id) s steps in
    (same, subst IsStep (sym same) steps)

-- The table shows the result as completed.
abbrev pub IsPublished : Text → Value → Demo → Type 0
IsPublished task_id v w =
    (task : TaskState) × (get_task task_id w ≡ some task)
    × (task.status ≡ some completed)
    × (task.stage ≡ some (txt "done"))
    × (task.result ≡ some v)

merged :
    (old : Option TaskState) (v : Value) (now : ℕ)
    → ((merge old (at_stage completed (txt "done") (some v)) now).status ≡ some completed)
      × ((merge old (at_stage completed (txt "done") (some v)) now).stage ≡ some (txt "done"))
      × ((merge old (at_stage completed (txt "done") (some v)) now).result ≡ some v)
merged none v now = (refl, refl, refl)
merged (some old) v now = (refl, refl, refl)

update_task-IsPublished :
    (task_id : Text) (v : Value) (w : Demo)
    → IsPublished task_id v (update_task task_id (at_stage completed (txt "done") (some v)) w)
unfolding update_task
update_task-IsPublished task_id v w =
    let (status, stage, result) = merged (lookup task_id w.tasks) v w.clock in
    (_, lookup-insert_self task_id _ w.tasks, status, stage, result)

read-returned :
    (host : Host) (name : Text) (v : Value)
    → is_nullish v ≡ false
    → read host name v ≡ returned (prop name v)
read-returned host name undefined e = cc
read-returned host name null e = cc
read-returned host name (bool b) e = refl
read-returned host name (num n) e = refl
read-returned host name (str s) e = refl
read-returned host name (arr vs) e = refl
read-returned host name (obj fs) e = refl

-- the state in which `render` reads the rows
abbrev rendering : Text → State Demo → State Demo
rendering task_id s = record s {
  world = pause 2000 (
      log (txt "[nextjs] EXECUTE render")
        (update_task task_id (at_stage running (txt "render") none) s.world));
}

-- The function of the step `render` of build-report returns on every memo of `collect` but undefined and
-- null, after it has written what it returns to the table, as the result of a task that is completed.
pub render-IsPublished :
    (host : Host) (show : Value → Text) (task_id : Text) (collected summary : Value)
    (s : State Demo)
    → is_nullish collected ≡ false
    → (v : Value) × (s' : State Demo) × (render host show task_id collected summary s
        ≡ (returned v, s'))
      × IsPublished task_id v s'.world
unfolding render
render-IsPublished host show task_id collected summary s there =
    let now = (rendering task_id s).world.clock in
    let result = report_of host show task_id summary (prop (txt "rows") collected) now in
    (
      result,
      (publish host show task_id summary (prop (txt "rows") collected) (rendering task_id s)).1,
      ap (λ o. then_do (o, rendering task_id s) (publish host show task_id summary))
          (read-returned host (txt "rows") collected there),
      update_task-IsPublished task_id result (rendering task_id s).world,
    )
