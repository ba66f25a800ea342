-- ===== src/Tests/Stepping.antt =====
-- The step primitives, and workflows.
use triggerlink.Prelude.{
  ℕ, suc, ◌+◌, ◌∷◌, ◌≡◌, ◌≢◌, ◌↔◌, ◌⊎◌, refl, none, some, true, [], txt, insert, lookup, ◌==◌,
}
use triggerlink.Prelude.Decimal.{print}
use triggerlink.Value.{nat, Value, null, num}
use triggerlink.Execx.{Opcode, OutgoingEvent, interrupt, next_hash, hash_input, new_ctx}
use triggerlink.Effects.{returned, threw, State, Exec}
use triggerlink.Step
use triggerlink.Step.{
  run, enter, memo_of, date, one, many, events_list, is_valid_time, event_or_null, WaitForEventOpts,
}
use triggerlink.Step.Arguments.{InterruptsOrFails, IsTimeout, primitives-InterruptsOrFails}
use triggerlink.Step.Memo.{next_memo, entered, Suspends, run_cases, primitives-Suspend}
use triggerlink.Function.{FunctionOpts, HandlerContext, TriggerFunction}
use triggerlink.Serve.{opcode_of, invoke}
use triggerlink.Durable.{
  Platform, wait, send_all, Flow, finish, step, Attempt, done, failed, handler_of, direct, drive,
}
use triggerlink.Durable.Refinement.{drive-eq-direct}
use triggerlink.Durable.Completing.{CompletesWithin, drive-CompletesWithin_iff}
use triggerlink.Tests.Sample.{host, host-CollisionFree}

-- the world counts the calls of the application
abbrev blank : State ℕ
blank = record { ec = new_ctx (txt "f") none; claims = []; world = 0 }

abbrev count_call : Exec ℕ Value
count_call s = (returned null, record s { world = suc s.world })

run_cases_example :
    ((v : Value) × (next_memo host (txt "a") blank ≡ some v)
      × (run host (txt "a") count_call blank ≡ (returned v, entered host (txt "a") blank)))
    ⊎ ((op : Opcode) × (next_memo host (txt "a") blank ≡ none)
        × (run host (txt "a") count_call blank
            ≡ (threw (interrupt op), (count_call (entered host (txt "a") blank)).1)))
run_cases_example = run_cases host (txt "a") count_call blank

abbrev approval : WaitForEventOpts
approval = record { event = txt "approved"; match = none; timeout = none }

suspend_test :
    Suspends (λ v. tt) host (txt "a") (Step.sleep_until host (txt "a") (date (nat 5))) blank
    × Suspends (λ v. tt) host (txt "a") (Step.sleep host (nat 5) (txt "a") (nat 7)) blank
    × Suspends (λ v. v) host (txt "a") (Step.send_event host (txt "a") (many [])) blank
    × Suspends event_or_null host (txt "a") (Step.wait_for_event host (txt "a") approval) blank
suspend_test =
    primitives-Suspend host (txt "a") blank (date (nat 5)) (nat 5) (nat 7) (many []) approval

-- the first attempt of `b` fails
abbrev flaky : ℕ → Attempt × ℕ
flaky (suc (suc k)) = (done (num (nat k)), suc (suc (suc k)))
flaky n = (failed (txt "busy") none, suc n)

abbrev greeting : OutgoingEvent
greeting = record { id = none; name = txt "user/greeted"; body = null; ts = none }

-- sending adds ten to the world
abbrev pub platform : Platform ℕ
platform = record {
  sleeps = λ until w. w;
  sends = λ events w. (null, w + 10);
  waits = λ event match timeout w. (null, w);
}

abbrev flow : Flow ℕ
flow =
    step (txt "a") (λ n. (done null, suc n))
      (λ v.
        step (txt "b") flaky
          (λ w. wait (txt "n") (send_all (many (greeting ∷ []))) (λ ids. finish w)))

abbrev pub plain : FunctionOpts ℕ
plain = record {
  id = txt "f";
  event = some (txt "e");
  match = none;
  cron = none;
  retries = none;
  cancel_on = none;
  timeout = none;
  debounce = none;
  throttle = none;
  batch = none;
  on_failure = none;
}

abbrev flow_function : TriggerFunction ℕ
flow_function = record { opts = plain; retries = nat 0; handler = λ context. handler_of host flow }

abbrev pub context : HandlerContext
context = record { event = null; events = none; run_id = null; attempt = null }

direct_test : direct host platform 5 flow 0 ≡ some (num (nat 0), 13)
unfolding direct
direct_test = refl

drive_test : drive platform 5 flow_function (txt "f") context [] 0 ≡ some (num (nat 0), 13)
unfolding drive invoke opcode_of handler_of run enter next_hash memo_of new_ctx insert lookup
    hash_input print ◌==◌ Step.finish Step.send_event Step.send_list Step.interrupt_with
drive_test = refl

drive-eq-direct_example :
    drive platform 5 flow_function (txt "f") context [] 0 ≡ direct host platform 5 flow 0
drive-eq-direct_example =
    drive-eq-direct host platform (txt "f") flow_function context flow 5 0 refl
      (host-CollisionFree (txt "f"))

drive-CompletesWithin_iff_example :
    (drive platform 5 flow_function (txt "f") context [] 0 ≡ some (num (nat 0), 13))
    ↔ CompletesWithin host platform 5 flow 0 (num (nat 0)) 13
drive-CompletesWithin_iff_example =
    drive-CompletesWithin_iff host platform (txt "f") flow_function context flow 5 0 (num (nat 0))
      13 refl (host-CollisionFree (txt "f"))

missing : next_memo host (txt "a") blank ≡ none
unfolding enter next_hash memo_of new_ctx lookup
missing = refl

primitives-InterruptsOrFails_example :
    InterruptsOrFails
      (Step.sleep_until host (txt "a") (date (nat 5)) blank).0
      (is_valid_time (nat 5) ≡ true)
    × InterruptsOrFails
        (Step.send_event host (txt "a") (many []) blank).0
        (events_list (many []) ≢ [])
    × InterruptsOrFails
        (Step.wait_for_event host (txt "a") approval blank).0
        ((txt "approved" ≢ []) × IsTimeout none)
primitives-InterruptsOrFails_example =
    primitives-InterruptsOrFails host (txt "a") blank (date (nat 5)) (many []) approval missing
