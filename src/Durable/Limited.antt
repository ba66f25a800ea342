-- ===== src/Durable/Limited.antt =====
-- Workflows over the steps of sdk-ts/src/step.ts under a platform that gives up, by section 7 of docs/protocol.md:
-- a callback that fails is retried unless as many callbacks were made as a run may have attempts.
pub mod Refinement
pub mod Ending
pub mod Termination
use triggerlink.Prelude.{
  ℕ, zero, suc, Option, none, some, List, [], Text, txt, insert, is_empty, leb, if◌then◌else◌,
}
use triggerlink.Value.{Value}
use triggerlink.Execx.{Host, StepState, Opcode}
use triggerlink.Effects.{Outcome}
use triggerlink.Step.{err_message}
use triggerlink.Function.{HandlerContext, TriggerFunction}
use triggerlink.Serve.{invoke}
use triggerlink.Durable.{
  Flow, finish, fail, step, wait, Attempt, done, failed, Question, Query, sleeping, sending,
  waiting, query_of, deliver, memo, Platform, reply, ask,
}
use triggerlink.Durable.Asking.{complaint}
use triggerlink.Durable.Callbacks.{attempt_of}
use triggerlink.Durable.Replay.{at}

-- How many attempts a run may have, the default filled in, and why the platform refuses a query, where it does.
pub record Policy : Type 0 where
  pub attempts : ℕ
  pub refusal : Query → Option Text

-- a run that has ended
pub data Ended : Type 0 where
  completed : Value → Ended
  gave_up : (error : Text) → Ended

-- the platform's own message for an error without one
abbrev pub message_or : (fallback message : Text) → Text
message_or fallback message = if is_empty message then fallback else message

abbrev pub run_message : Text → Text
run_message message = message_or (txt "run error") message

abbrev pub step_message : Text → Text
step_message message = message_or (txt "step error") message

module _ {W : Type 0} where
  -- After the failure of callback `n`, from 1 on: the run fails, or the callback is made again.
  abbrev pub retry_or_fail :
      Policy → (n : ℕ) → Text → (W → Option (Ended × W)) → W → Option (Ended × W)
  retry_or_fail policy n message again w =
      let retried = again w in if leb policy.attempts n then some (gave_up message, w) else retried

  -- The answer to a query, unless it is refused.
  abbrev pub answer_or_fail :
      Platform W
      → Policy
      → (n : ℕ) → (Value → W → Option (Ended × W))
      → (W → Option (Ended × W))
      → Option Text
      → Query
      → W
      → Option (Ended × W)
  answer_or_fail platform policy n go_on again (some why) query w =
      retry_or_fail policy n why again w
  answer_or_fail platform policy n go_on again none query w =
      let (v, w') = reply platform query w in go_on v w'

  abbrev pub ask_or_fail :
      Platform W
      → Policy
      → (n : ℕ) → (Value → W → Option (Ended × W))
      → (W → Option (Ended × W))
      → Text
      → Option Query
      → W
      → Option (Ended × W)
  ask_or_fail platform policy n go_on again why none w =
      retry_or_fail policy n (run_message why) again w
  ask_or_fail platform policy n go_on again why (some query) w =
      answer_or_fail platform policy n go_on again (policy.refusal query) query w

  abbrev pub settle :
      Policy
      → (n : ℕ) → (Value → W → Option (Ended × W))
      → (W → Option (Ended × W))
      → Attempt × W
      → Option (Ended × W)
  settle policy n go_on again (done v, w) = go_on v w
  settle policy n go_on again (failed message stack, w) =
      retry_or_fail policy n (step_message message) again w

  -- The workflow as one would read it, after `n` attempts: as `direct`, but that an attempt which fails is
  -- the last one where the policy allows no more. `none` where `fuel` attempts are not enough.
  unfoldable pub direct_limited :
      Host → Platform W → Policy → (fuel n : ℕ) → Flow W → W → Option (Ended × W)
  direct_limited host platform policy zero n flow w = none
  direct_limited host platform policy (suc fuel) n (finish v) w = some (completed v, w)
  direct_limited host platform policy (suc fuel) n (fail message stack) w =
      retry_or_fail policy (suc n) (run_message message)
        (direct_limited host platform policy fuel (suc n) (fail message stack)) w
  direct_limited host platform policy (suc fuel) n (step id fn rest) w =
      settle policy (suc n) (λ v. direct_limited host platform policy fuel (suc n) (rest v))
        (direct_limited host platform policy fuel (suc n) (step id fn rest)) (fn w)
  direct_limited host platform policy (suc fuel) n (wait id q rest) w =
      ask_or_fail platform policy (suc n)
        (λ v. direct_limited host platform policy fuel (suc n) (rest (deliver q v)))
        (direct_limited host platform policy fuel (suc n) (wait id q rest)) (complaint host id q w)
        (query_of host q w) w

  -- The platform after callback `n`. `again` is the next callback, with its memos.
  abbrev pub react_limited :
      Platform W
      → Policy
      → (n : ℕ) → (List (Text × StepState) → W → Option (Ended × W))
      → List (Text × StepState)
      → Opcode × W
      → Option (Ended × W)
  react_limited platform policy n again steps (Opcode.run_complete output, w) =
      some (completed output, w)
  react_limited platform policy n again steps (Opcode.step_complete h id output, w) =
      again (insert h (memo id output) steps) w
  react_limited platform policy n again steps (Opcode.step_error h id e, w) =
      retry_or_fail policy n (step_message e.message) (again steps) w
  react_limited platform policy n again steps (Opcode.run_error e, w) =
      retry_or_fail policy n (run_message e.message) (again steps) w
  react_limited platform policy n again steps (Opcode.sleep h id until, w) =
      answer_or_fail platform policy n (λ v. again (insert h (memo id v) steps)) (again steps)
        (policy.refusal (sleeping until)) (sleeping until) w
  react_limited platform policy n again steps (Opcode.send_event h id events, w) =
      answer_or_fail platform policy n (λ v. again (insert h (memo id v) steps)) (again steps)
        (policy.refusal (sending events)) (sending events) w
  react_limited platform policy n again steps (Opcode.wait_for_event h id event match timeout, w) =
      answer_or_fail platform policy n (λ v. again (insert h (memo id v) steps)) (again steps)
        (policy.refusal (waiting event match timeout)) (waiting event match timeout) w

  -- A run of at most `fuel` callbacks more, after `n`, each a call of the handler from the top.
  unfoldable pub drive_limited :
      Platform W
      → Policy
      → (fuel n : ℕ) → TriggerFunction W
      → Text
      → HandlerContext
      → List (Text × StepState)
      → W
      → Option (Ended × W)
  drive_limited platform policy zero n tf f context steps w = none
  drive_limited platform policy (suc fuel) n tf f context steps w =
      react_limited platform policy (suc n)
        (λ steps' w'. drive_limited platform policy fuel (suc n) tf f context steps' w') steps
        (invoke tf f (some steps) (attempt_of n context) w)
