-- ===== src/Example/Workflows.antt =====
-- The functions process-doc and build-report of examples/nextjs/app/api/triggerlink/route.ts.
use triggerlink.Prelude.{ℕ, ◌+◌, Option, none, some, [], ◌∷◌, ◌++◌, Text, txt}
use triggerlink.Prelude.Decimal.{print}
use triggerlink.Value.{nat, Value, undefined, null, num, str, obj, field, end, prop}
use triggerlink.Execx.{Host, interrupt}
use triggerlink.Effects.{Outcome, returned, threw, new_error, State, Exec, ◌>>=◌, pure, lift}
use triggerlink.Step.{run, err_message}
use triggerlink.Example.Tasks.{Status, running, completed, failed, Patch, Demo, update_task}

-- a write to the console
abbrev pub log : Text → Demo → Demo
log line w = record w { console = w.console ++ line ∷ [] }

-- `await new Promise((r) => setTimeout(r, ms))`
abbrev pub pause : ℕ → Demo → Demo
pause ms w = record w { clock = w.clock + ms }

-- the function of a step that cannot throw
abbrev pub effect : (Demo → Demo) → Value → Exec Demo Value
effect change v s = (returned v, record s { world = change s.world })

-- a value in a template, where it is a text or a natural number; `show` is String() of the others
abbrev pub shown : (show : Value → Text) → Value → Text
shown show (str s) = s
shown show (num (nat n)) = print n
shown show v = show v

module _ (host : Host) (show : Value → Text) where
  unfoldable pub process_doc : (doc_id : Text) → Exec Demo Value
  process_doc doc_id = do
    parsed ← run host (txt "parse") (
        effect (log (txt "[nextjs] EXECUTE parse (doc=" ++ (doc_id ++ txt ")")))
          (str (txt "parsed:" ++ doc_id)))
    chunks ← run host (txt "chunk") (effect (log (txt "[nextjs] EXECUTE chunk")) (num (nat 12)))
    vectors ← run host (txt "embed") (
        effect
          (λ w. pause 2000 (
            log (txt "[nextjs] EXECUTE embed (" ++ (shown show chunks ++ txt " chunks, slow...)"))
              w))
          (str (txt "vectors-ok")))
    stored ←
        run host (txt "store") (effect (log (txt "[nextjs] EXECUTE store")) (str (txt "stored")))
    pure (
        obj (
          field (txt "doc_id") (str doc_id)
            (field (txt "parsed") parsed (field (txt "vectors") vectors end))))

abbrev pub at_stage : Status → Text → Option Value → Patch
at_stage status stage result = record {
  status = some status;
  stage = some stage;
  result = result;
  error = none;
}

abbrev pub with_error : Text → Patch
with_error message = record {
  status = some failed;
  stage = none;
  result = none;
  error = some message;
}

abbrev pub collected_rows : Value
collected_rows =
    obj (field (txt "rows") (num (nat 128)) (field (txt "source") (str (txt "orders-db")) end))

-- what a read of a property needs: it throws on undefined and null
abbrev pub read : Host → Text → Value → Outcome Value
read host name undefined =
    threw
      (new_error host (txt "Cannot read properties of undefined (reading '" ++ (name ++ txt "')")))
read host name null =
    threw (new_error host (txt "Cannot read properties of null (reading '" ++ (name ++ txt "')")))
read host name v = returned (prop name v)

-- a computation on the example's world alone
abbrev pub change : (Demo → Demo) → Exec Demo (Unit {0})
change f s = (returned tt, record s { world = f s.world })

-- the `catch` of build-report
abbrev pub note_failure : Text → Outcome Value × State Demo → Outcome Value × State Demo
note_failure task_id (returned v, s) = (returned v, s)
note_failure task_id (threw (interrupt op), s) = (threw (interrupt op), s)
note_failure task_id (threw e, s) =
    (threw e, record s { world = update_task task_id (with_error (err_message e)) s.world })

module _ (host : Host) (show : Value → Text) (task_id : Text) where
  unfoldable pub collect : Exec Demo Value
  collect =
      effect
        (λ w. pause 1000 (
          log (txt "[nextjs] EXECUTE collect (task=" ++ (task_id ++ txt ")"))
            (update_task task_id (at_stage running (txt "collect") none) w)))
        collected_rows

  unfoldable pub analyze : (collected : Value) → Exec Demo Value
  analyze collected = do
    started ← change (update_task task_id (at_stage running (txt "analyze") none))
    rows ← lift (read host (txt "rows") collected)
    logged ← change (λ w.
        pause 3000
          (log (txt "[nextjs] EXECUTE analyze (" ++ (shown show rows ++ txt " rows, slow...)")) w))
    pure (
        str (
          txt "营收环比 +12%（样本 "
          ++ (shown show rows
              ++ (txt " 行，来源 " ++ (shown show (prop (txt "source") collected) ++ txt "）")))))

  abbrev pub report_of : (summary rows : Value) → ℕ → Value
  report_of summary rows now = obj (
      field (txt "title") (str (txt "每日经营报告")) (
        field (txt "summary") summary
          (field (txt "rows") rows (field (txt "generated_at") (str (host.iso (nat now))) end))))

  -- the result of a render at the time `now`, written to the table and returned
  abbrev pub publish : (summary rows : Value) → Exec Demo Value
  publish summary rows s =
      let result = report_of summary rows s.world.clock in
      (
        returned result,
        record s {
          world = update_task task_id (at_stage completed (txt "done") (some result)) s.world;
        },
      )

  unfoldable pub render : (collected summary : Value) → Exec Demo Value
  render collected summary = do
    started ← change (update_task task_id (at_stage running (txt "render") none))
    logged ← change (λ w. pause 2000 (log (txt "[nextjs] EXECUTE render") w))
    rows ← lift (read host (txt "rows") collected)
    publish summary rows

  -- the body of the `try`
  unfoldable pub report_steps : Exec Demo Value
  report_steps = do
    collected ← run host (txt "collect") collect
    summary ← run host (txt "analyze") (analyze collected)
    run host (txt "render") (render collected summary)

  unfoldable pub build_report : Exec Demo Value
  build_report s = note_failure task_id (report_steps s)
