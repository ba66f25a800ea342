-- ===== src/Step.antt =====
-- sdk-ts/src/step.ts: the step primitives of a handler, over one call's execution context.
pub mod Memo
pub mod Arguments
use triggerlink.Prelude.{
  ℕ, zero, suc, ◌+◌, ◌<◌, Option, none, some, List, [], ◌∷◌, ◌++◌, Bool, true, false, Text, txt,
  ◌==◌, lookup, is_empty, leb, if◌then◌else◌,
}
use triggerlink.Value.{Number, nan, infinite, nat, neg, add, Value, undefined, null, is_nullish}
use triggerlink.Execx.{
  Host, StepState, OpError, OutgoingEvent, Opcode, Thrown, interrupt, error, other, ExecCtx,
  next_hash,
}
use triggerlink.Effects.{Outcome, returned, threw, new_error, State, Exec}
use triggerlink.Duration.{Duration, go, ms, ms_to_go_duration}

abbrev op_name : Opcode → Text
op_name (Opcode.step_complete id step_id output) = txt "StepComplete"
op_name (Opcode.step_error id step_id e) = txt "StepError"
op_name (Opcode.run_complete output) = txt "RunComplete"
op_name (Opcode.run_error e) = txt "RunError"
op_name (Opcode.sleep id step_id until) = txt "Sleep"
op_name (Opcode.send_event id step_id events) = txt "SendEvent"
op_name (Opcode.wait_for_event id step_id event match timeout) = txt "WaitForEvent"

-- the message that the constructor of `StepInterrupt` gives it
abbrev interrupt_message : Opcode → Text
interrupt_message op = txt "step interrupt: " ++ op_name op

unfoldable pub err_message : Thrown → Text
err_message (interrupt op) = interrupt_message op
err_message (error message stack) = message
err_message (other shown) = shown

module _ (host : Host) where
  unfoldable pub err_stack : Thrown → Option Text
  err_stack (interrupt op) = some (host.stack (interrupt_message op))
  err_stack (error message stack) = stack
  err_stack (other shown) = none

-- The output of a memo, where there is one that is completed.
abbrev pub completed : Option StepState → Option Value
completed none = none
completed (some memo) = if memo.status == txt "completed" then some memo.output else none

unfoldable pub memo_of : Text → ExecCtx → Option Value
memo_of h ec = completed (lookup h ec.steps)

-- A point in time as `sleepUntil` takes it: a `Date` with its time value, or a text.
pub data Instant : Type 0 where
  date : Number → Instant
  text : Text → Instant

-- A `Date` holds a time: an integer of at most 8.64e15 milliseconds on either side of 1970.
abbrev pub is_valid_time : Number → Bool
is_valid_time (nat n) = leb n 8640000000000000
is_valid_time (neg n) = leb (n + 1) 8640000000000000
is_valid_time n = false

pub data OneOrMany : Type 0 where
  one : OutgoingEvent → OneOrMany
  many : List OutgoingEvent → OneOrMany

abbrev pub events_list : OneOrMany → List OutgoingEvent
events_list (one e) = e ∷ []
events_list (many es) = es

pub record WaitForEventOpts : Type 0 where
  pub event : Text
  pub match : Option Text
  pub timeout : Option Duration

module _ {W : Type 0} where
  -- The part that all primitives begin with: a memo key, and the memo of that key.
  unfoldable pub enter : Host → Text → State W → Text × Option Value × State W
  unfolding next_hash memo_of
  enter host id s =
      let (h, ec') = next_hash host id s.ec in (h, memo_of h ec', record s { ec = ec' })

-- a text in quotes, behind the name of a primitive
quoted : Text → Text → Text → Text
quoted what id why = what ++ (txt " \"" ++ (id ++ (txt "\": " ++ why)))

abbrev pub map_outcome {ℓ κ} : {A : Type ℓ} {B : Type κ} → (A → B) → Outcome A → Outcome B
map_outcome f (returned a) = returned (f a)
map_outcome f (threw e) = threw e

module _ (host : Host) where
  abbrev pub time_value : Instant → Number
  time_value (date t) = t
  time_value (text s) = host.parse_date s

  -- `toISOString` throws on an invalid date
  unfoldable pub to_iso_string : Number → Outcome Text
  to_iso_string t =
      if is_valid_time t
      then returned (host.iso t)
      else threw (new_error host (txt "Invalid time value"))

  -- the `catch` of `run`
  unfoldable pub as_interrupt : Text → Text → Thrown → Thrown
  as_interrupt h id (interrupt op) = interrupt op
  as_interrupt h id e = interrupt (
      Opcode.step_error h id
        (record { message = err_message e; stack = err_stack host e; retryable = true }))

  unfoldable pub go_timeout : Option Duration → Outcome (Option Text)
  go_timeout none = returned none
  go_timeout (some (go s)) = returned (some s)
  go_timeout (some (ms n)) = elim (ms_to_go_duration host n (txt "step.waitForEvent")) [
    | returned s ↦ returned (some s)
    | threw e ↦ threw e
  ]

  unfoldable pub send_list : Text → Text → List OutgoingEvent → Outcome Opcode
  unfolding quoted
  send_list h id [] = threw (new_error host (quoted (txt "step.sendEvent") id (txt "no events")))
  send_list h id (e ∷ es) = returned (Opcode.send_event h id (e ∷ es))

  unfoldable pub wait_opcode : Text → Text → WaitForEventOpts → Outcome Opcode
  unfolding quoted go_timeout
  wait_opcode h id opts =
      if is_empty opts.event
      then threw (new_error host (quoted (txt "step.waitForEvent") id (txt "event is required")))
      else map_outcome (Opcode.wait_for_event h id opts.event opts.match) (go_timeout opts.timeout)

-- An interrupt is the only way on of a primitive that finds no memo, unless an argument is refused.
unfoldable pub interrupt_with : {A : Type 0} → Outcome Opcode → Outcome A
interrupt_with (returned op) = threw (interrupt op)
interrupt_with (threw e) = threw e

-- A primitive that calls nothing of the application: the memo, or the interrupt.
abbrev pub answer : {W A : Type 0} → (Value → A) → Outcome Opcode → Option Value → Exec W A
answer f op (some output) s = (returned (f output), s)
answer f op none s = (interrupt_with op, s)

abbrev pub event_or_null : Value → Value
event_or_null output = if is_nullish output then null else output

module _ (host : Host) {W : Type 0} where
  -- the `try` of `run`
  unfoldable pub finish : Text → Text → Outcome Value × State W → Outcome Value × State W
  unfolding as_interrupt err_message err_stack
  finish h id (returned output, s) = (threw (interrupt (Opcode.step_complete h id output)), s)
  finish h id (threw e, s) = (threw (as_interrupt host h id e), s)

  unfoldable pub run : Text → Exec W Value → Exec W Value
  run id fn s =
      let (h, memo, s') = enter host id s in
      elim memo [ some output ↦ (returned output, s') | none ↦ finish h id (fn s') ]

  unfoldable pub sleep_until : Text → Instant → Exec W (Unit {0})
  unfolding to_iso_string interrupt_with
  sleep_until id at s =
      let (h, memo, s') = enter host id s in
      let op = map_outcome (Opcode.sleep h id) (to_iso_string host (time_value host at)) in
      answer (λ _. tt) op memo s'

  -- `now` is the reading of Date.now()
  unfoldable pub sleep : (now : Number) → Text → (dur_ms : Number) → Exec W (Unit {0})
  unfolding sleep_until add
  sleep now id dur_ms = sleep_until id (date (add now dur_ms))

  unfoldable pub send_event : Text → OneOrMany → Exec W Value
  unfolding send_list interrupt_with
  send_event id events s =
      let (h, memo, s') = enter host id s in
      answer (λ output. output) (send_list host h id (events_list events)) memo s'

  unfoldable pub wait_for_event : Text → WaitForEventOpts → Exec W Value
  unfolding wait_opcode interrupt_with
  wait_for_event id opts s =
      let (h, memo, s') = enter host id s in
      answer event_or_null (wait_opcode host h id opts) memo s'
