-- ===== src/Tests/Planning.antt =====
-- A run of signed callbacks of a handler that runs an agent and a step.
use triggerlink.Prelude.{
  ℕ, zero, suc, ◌≡◌, refl, Option, none, some, List, [], ◌∷◌, Text, txt, insert, lookup, ◌==◌,
  arith, inl, inr,
}
use triggerlink.Prelude.Decimal.{print}
use triggerlink.Value.{Value, obj, end, field, prop, nat, str}
use triggerlink.Execx.{Host, StepState, next_hash, hash_input, new_ctx}
use triggerlink.Sign.Verdicts.{HasHexDigests}
use triggerlink.Step
use triggerlink.Step.{run, enter, memo_of}
use triggerlink.Function.{TriggerFunction}
use triggerlink.Registry.{Registry}
use triggerlink.Stringify.{IsJson}
use triggerlink.Serve.{opcode_of, invoke}
use triggerlink.Durable.{done, direct}
use triggerlink.Durable.Callbacks.{callback_value, attempt_of, drive_signed, AreCarried}
use triggerlink.Agent.Memo.{memo_object, is_llm_memo, assert_llm_memo}
use triggerlink.Agent.Loop.{run_agent, claim, iterate, ask, prepare, llm_call}
use triggerlink.Agent.Durably.{iterations_flow}
use triggerlink.Agent.Durably.Plan.{Plan, step, converse, plan_handler, plan_flow, IsSound}
use triggerlink.Agent.Durably.Callbacks.{drive_signed-plan-eq-direct}
use triggerlink.Tests.Talking.{agent, silent, response, options-AreEffects}
use triggerlink.Tests.Sample.{host, host-CollisionFree, host-HasHexDigests}
use triggerlink.Tests.Stepping.{plain, context}
use triggerlink.Tests.Carrying.{client, clock}

abbrev plan : Plan ℕ
plan =
    converse agent (txt "hi")
      (λ first. step (txt "note") (λ n. (done first.text, suc n)) (λ noted. Plan.finish noted))

abbrev agent_memos : List (Text × StepState)
agent_memos =
    (
      txt "f:agent/a:0",
      record { id = txt "agent/a"; status = txt "completed"; output = memo_object (response []) },
    )
    ∷ []

abbrev memos : List (Text × StepState)
memos =
    (
      txt "f:agent/a:0",
      record { id = txt "agent/a"; status = txt "completed"; output = memo_object (response []) },
    )
    ∷ (
      txt "f:note:0",
      record { id = txt "note"; status = txt "completed"; output = str (txt "text") },
    )
    ∷ []

-- A body for each number of memos.
abbrev code_steps : Value → List ℕ
code_steps (obj end) = 0 ∷ []
code_steps (obj (field h memo end)) = 1 ∷ []
code_steps v = 2 ∷ []

abbrev encode : Value → List ℕ
encode v = code_steps (prop (txt "steps") (prop (txt "ctx") v))

abbrev parse : List ℕ → Option Value
parse (zero ∷ []) = some (callback_value (txt "f") (attempt_of 0 context) [])
parse (suc zero ∷ []) = some (callback_value (txt "f") (attempt_of 1 context) agent_memos)
parse (suc (suc zero) ∷ []) = some (callback_value (txt "f") (attempt_of 2 context) memos)
parse body = none

abbrev wire : Host
wire = record host { parse_json = parse }

wire-HasHexDigests : HasHexDigests wire
wire-HasHexDigests = record { hex = host-HasHexDigests.hex; nonempty = host-HasHexDigests.nonempty }

abbrev planning : TriggerFunction ℕ
planning = record { opts = plain; retries = nat 0; handler = λ c. plan_handler wire plan }

abbrev registry : Registry ℕ
registry = (txt "f", planning) ∷ []

plan-IsSound : IsSound [] plan
unfolding IsSound lookup
plan-IsSound = (inl refl, options-AreEffects, λ first noted. tt)

carried : AreCarried silent wire encode (txt "f") planning context 3 0 [] 2
unfolding AreCarried IsJson invoke opcode_of plan_handler run enter next_hash memo_of new_ctx insert
    lookup hash_input print ◌==◌ Step.finish prop run_agent claim iterate ask prepare llm_call
    is_llm_memo assert_llm_memo
carried = (
  record { fits = omega arith; parsed = refl },
  inr (tt, (tt, (tt, ((tt, (tt, tt)), tt)))),
  (
    record { fits = omega arith; parsed = refl },
    inr tt,
    (record { fits = omega arith; parsed = refl }, inr tt, tt),
  ),
)

registered : lookup (txt "f") registry ≡ some planning
unfolding lookup ◌==◌
registered = refl

drive_signed-plan-eq-direct_example :
    drive_signed silent wire encode clock.sent clock.received client registry
      (txt "f")
      context
      3
      0
      []
      2
    ≡ direct wire silent 3 (plan_flow wire plan) 2
drive_signed-plan-eq-direct_example =
    drive_signed-plan-eq-direct silent wire encode clock client registry (txt "f") planning context
      plan 3 2 registered (λ n. refl) plan-IsSound tt wire-HasHexDigests
      (host-CollisionFree (txt "f")) carried

-- The model answers, the step is executed, and the third callback ends.
plan_test : direct wire silent 3 (plan_flow wire plan) 2 ≡ some (str (txt "text"), 4)
unfolding direct plan_flow iterations_flow prepare llm_call lookup ◌==◌ prop is_llm_memo
    assert_llm_memo
plan_test = refl
