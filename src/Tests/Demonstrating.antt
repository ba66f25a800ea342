-- ===== src/Tests/Demonstrating.antt =====
-- The example application's functions.
use triggerlink.Prelude.{◌≡◌, refl, none, some, [], Text, txt}
use triggerlink.Value.{Value, nat, null, str}
use triggerlink.Effects.{returned, State}
use triggerlink.Execx.{new_ctx}
use triggerlink.Function.{FunctionOpts, TriggerFunction}
use triggerlink.Durable.{Platform, drive}
use triggerlink.Example.Tasks.{Demo}
use triggerlink.Example.Workflows.{process_doc, build_report, report_steps, render, collected_rows}
use triggerlink.Example.Runs.{
  document, execute_lines, drive-process_doc, IsStep, build_report-report_steps, IsPublished,
  render-IsPublished,
}
use triggerlink.Tests.Sample.{host, host-CollisionFree}

abbrev show : Value → Text
show v = txt "[object Object]"

abbrev demo : Demo
demo = record { tasks = []; console = []; clock = 7 }

abbrev process_options : FunctionOpts Demo
process_options = record {
  id = txt "process-doc";
  event = some (txt "doc/uploaded");
  match = none;
  cron = none;
  retries = some (nat 4);
  cancel_on = none;
  timeout = none;
  debounce = none;
  throttle = none;
  batch = none;
  on_failure = none;
}

abbrev process_function : TriggerFunction Demo
process_function = record {
  opts = process_options;
  retries = nat 4;
  handler = λ context. process_doc host show (txt "d1");
}

-- no question is asked
abbrev nothing : Platform Demo
nothing = record {
  sleeps = λ until w. w;
  sends = λ events w. (null, w);
  waits = λ event match timeout w. (null, w);
}

drive-process_doc_example :
    drive nothing 6 process_function
      (txt "process-doc")
      (record { event = null; events = none; run_id = null; attempt = null })
      []
      demo
    ≡ some (
      document (str (txt "parsed:d1")) (txt "d1") (str (txt "vectors-ok")),
      record demo { console = execute_lines show (txt "d1"); clock = 2007 },
    )
drive-process_doc_example =
    drive-process_doc host nothing show (txt "d1") (txt "process-doc") process_function
      (record { event = null; events = none; run_id = null; attempt = null }) 1 demo refl
      (host-CollisionFree (txt "process-doc"))

abbrev start : State Demo
start = record { ec = new_ctx (txt "build-report") none; claims = []; world = demo }

build_report-report_steps_example :
    (build_report host show (txt "t") start ≡ report_steps host show (txt "t") start)
    × IsStep (build_report host show (txt "t") start)
build_report-report_steps_example = build_report-report_steps host show (txt "t") start

render_test :
    (v : Value) × (s' : State Demo) × (render host show
        (txt "t")
        collected_rows
        (str (txt "ok"))
        start
      ≡ (returned v, s'))
    × IsPublished (txt "t") v s'.world
render_test = render-IsPublished host show (txt "t") collected_rows (str (txt "ok")) start refl
