-- ===== src/Durable.antt =====
-- Workflows over the steps of sdk-ts/src/step.ts, executed twice: directly, and durably by callbacks. The durable execution
-- is the SDK's (the steps and the POST handler) under a platform that follows docs/protocol.md: it keeps
-- the output of each completed step and calls the function again from the top.
pub mod Replay
pub mod Asking
pub mod Refinement
pub mod Callbacks
pub mod Completing
pub mod Effect
pub mod Simulation
pub mod Claims
pub mod Limited
use triggerlink.Prelude.{
  Bool, true, false, ◌∷◌, is_empty, if◌then◌else◌, ℕ, zero, suc, Option, none, some, List, [], Text,
  txt, insert,
}
use triggerlink.Value.{Number, add, Value, undefined, null}
use triggerlink.Execx.{Host, StepState, OutgoingEvent, Opcode, error}
use triggerlink.Effects.{Outcome, returned, threw, State, Exec, then_do, pure}
use triggerlink.Step.{
  run, sleep_until, send_event, wait_for_event, Instant, OneOrMany, events_list, WaitForEventOpts,
  is_valid_time, time_value, go_timeout, event_or_null,
}
use triggerlink.Step
use triggerlink.Function.{HandlerContext, TriggerFunction}
use triggerlink.Serve.{invoke}

-- What the function of a step does when it is called once.
pub data Attempt : Type 0 where
  done : Value → Attempt
  failed : (message : Text) (stack : Option Text) → Attempt

-- What a step asks of the platform: to sleep until a time or for a while, to send events, or to wait for one.
-- `clock` reads the time of the world, as Date.now() does.
pub data Question (W : Type 0) : Type 0 where
  sleep_at : Instant → Question W
  sleep_for : (clock : W → Number) → (dur_ms : Number) → Question W
  send_all : OneOrMany → Question W
  wait_on : WaitForEventOpts → Question W

-- A handler whose effects are all in its steps: between two steps it computes from what they returned.
pub data Flow (W : Type 0) : Type 0 where
  finish : Value → Flow W
  fail : (message : Text) (stack : Option Text) → Flow W
  step : Text → (W → Attempt × W) → (Value → Flow W) → Flow W
  wait : Text → Question W → (Value → Flow W) → Flow W

abbrev pub outcome_of : Attempt → Outcome Value
outcome_of (done v) = returned v
outcome_of (failed message stack) = threw (error message stack)

-- a question that the code does not refuse
pub data Query : Type 0 where
  sleeping : (until : Text) → Query
  sending : List OutgoingEvent → Query
  waiting : (event : Text) (match timeout : Option Text) → Query

abbrev when_named : Bool → Option Query → Option Query
when_named true query = none
when_named false query = query

abbrev waiting_for : Text → Option Text → Outcome (Option Text) → Option Query
waiting_for event match (returned timeout) = some (waiting event match timeout)
waiting_for event match (threw e) = none

abbrev sending_all : List OutgoingEvent → Option Query
sending_all [] = none
sending_all (e ∷ es) = some (sending (e ∷ es))

abbrev pub sleeping_until : Host → Number → Option Query
sleeping_until host t = if is_valid_time t then some (sleeping (host.iso t)) else none

-- A time must be valid, there must be an event, and an event that is waited for has a name and a timeout
-- that is absent, a text or a positive integer.
abbrev pub query_of : {W : Type 0} → Host → Question W → W → Option Query
query_of host (sleep_at at) w = sleeping_until host (time_value host at)
query_of host (sleep_for clock dur_ms) w = sleeping_until host (add (clock w) dur_ms)
query_of host (send_all es) w = sending_all (events_list es)
query_of host (wait_on opts) w =
    when_named (is_empty opts.event)
      (waiting_for opts.event opts.match (go_timeout host opts.timeout))

abbrev pub opcode_at : Text → Text → Query → Opcode
opcode_at h id (sleeping until) = Opcode.sleep h id until
opcode_at h id (sending events) = Opcode.send_event h id events
opcode_at h id (waiting event match timeout) = Opcode.wait_for_event h id event match timeout

-- what the step returns of the output of its memo
abbrev pub deliver : {W : Type 0} → Question W → Value → Value
deliver (sleep_at at) v = undefined
deliver (sleep_for clock dur_ms) v = undefined
deliver (send_all es) v = v
deliver (wait_on opts) v = event_or_null v

-- What happens in the world while the platform answers a query, and the output that it keeps.
pub record Platform (W : Type 0) : Type 0 where
  pub sleeps : (until : Text) → W → W
  pub sends : List OutgoingEvent → W → Value × W
  pub waits : (event : Text) (match timeout : Option Text) → W → Value × W

abbrev pub memo : Text → Value → StepState
memo id output = record { id = id; status = txt "completed"; output = output }

module _ {W : Type 0} where
  abbrev pub reply : Platform W → Query → W → Value × W
  reply platform (sleeping until) w = (null, platform.sleeps until w)
  reply platform (sending events) w = platform.sends events w
  reply platform (waiting event match timeout) w = platform.waits event match timeout w

  -- a question, as the SDK asks it
  abbrev pub ask : Host → Text → Question W → Exec W Value
  ask host id (sleep_at at) s = then_do (sleep_until host id at s) (λ _. pure undefined)
  ask host id (sleep_for clock dur_ms) s =
      then_do (Step.sleep host (clock s.world) id dur_ms s) (λ _. pure undefined)
  ask host id (send_all es) s = send_event host id es s
  ask host id (wait_on opts) s = wait_for_event host id opts s

  abbrev pub effect_of : (W → Attempt × W) → Exec W Value
  effect_of fn s = let (a, w) = fn s.world in (outcome_of a, record s { world = w })

  -- The handler as the SDK runs it.
  unfoldable pub handler_of : Host → Flow W → Exec W Value
  handler_of host (finish v) s = (returned v, s)
  handler_of host (fail message stack) s = (threw (error message stack), s)
  handler_of host (step id fn rest) s =
      then_do (run host id (effect_of fn) s) (λ v. handler_of host (rest v))
  handler_of host (wait id question rest) s =
      then_do (ask host id question s) (λ v. handler_of host (rest v))

  abbrev settle :
      (Value → W → Option (Value × W)) → (W → Option (Value × W)) → Attempt × W → Option (Value × W)
  settle go_on retry (done v, w) = go_on v w
  settle go_on retry (failed message stack, w) = retry w

  abbrev answered :
      Platform W
      → (Value → W → Option (Value × W))
      → (W → Option (Value × W))
      → Option Query
      → W
      → Option (Value × W)
  answered platform go_on retry none w = retry w
  answered platform go_on retry (some query) w = let (v, w') = reply platform query w in go_on v w'

  -- The workflow as one would read it: every step is attempted until it succeeds, every question is
  -- answered once, and these are the only effects. `none` where `fuel` attempts are not enough.
  unfoldable pub direct : Host → Platform W → ℕ → Flow W → W → Option (Value × W)
  direct host platform zero flow w = none
  direct host platform (suc fuel) (finish v) w = some (v, w)
  direct host platform (suc fuel) (fail message stack) w =
      direct host platform fuel (fail message stack) w
  direct host platform (suc fuel) (step id fn rest) w =
      settle (λ v. direct host platform fuel (rest v)) (direct host platform fuel (step id fn rest))
        (fn w)
  direct host platform (suc fuel) (wait id question rest) w =
      answered platform (λ v. direct host platform fuel (rest (deliver question v)))
        (direct host platform fuel (wait id question rest)) (query_of host question w) w

  abbrev keep :
      (List (Text × StepState) → W → Option (Value × W))
      → (h id : Text) → List (Text × StepState)
      → Value × W
      → Option (Value × W)
  keep again h id steps (output, w) = again (insert h (memo id output) steps) w

  -- The platform after a callback: a completed step is kept, and so is the answer to a question; a
  -- failure is retried, and a completed run ends. `again` is the next callback, with its memos.
  abbrev react :
      Platform W
      → (List (Text × StepState) → W → Option (Value × W))
      → List (Text × StepState)
      → Opcode × W
      → Option (Value × W)
  react platform again steps (Opcode.run_complete output, w) = some (output, w)
  react platform again steps (Opcode.step_complete h id output, w) =
      keep again h id steps (output, w)
  react platform again steps (Opcode.step_error h id e, w) = again steps w
  react platform again steps (Opcode.run_error e, w) = again steps w
  react platform again steps (Opcode.sleep h id until, w) =
      keep again h id steps (reply platform (sleeping until) w)
  react platform again steps (Opcode.send_event h id events, w) =
      keep again h id steps (reply platform (sending events) w)
  react platform again steps (Opcode.wait_for_event h id event match timeout, w) =
      keep again h id steps (reply platform (waiting event match timeout) w)

  -- A run of at most `fuel` callbacks, each a call of the handler from the top.
  unfoldable pub drive :
      Platform W
      → ℕ
      → TriggerFunction W
      → Text
      → HandlerContext
      → List (Text × StepState)
      → W
      → Option (Value × W)
  drive platform zero fn id context steps w = none
  drive platform (suc fuel) fn id context steps w =
      react platform (λ steps'. drive platform fuel fn id context steps') steps
        (invoke fn id (some steps) context w)
