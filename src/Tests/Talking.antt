-- ===== src/Tests/Talking.antt =====
-- An agent's durable run: a model that fails once, then asks for a tool, then answers.
use triggerlink.Prelude.{
  ℕ, zero, suc, Bool-cases, inl, inr, ◌≡◌, ◌↔◌, refl, subst, lookup, insert, ◌==◌, true, ap,
  or_else, none, some, List, [], ◌∷◌, Text, txt, arith,
}
use triggerlink.Value.{Value, nat, null, num, str, obj, nil, field, end, prop, add}
use triggerlink.Execx.{Thrown}
use triggerlink.Effects.{Outcome, returned, threw}
use triggerlink.Function.{HandlerContext, TriggerFunction}
use triggerlink.Durable.{Platform, finish, done, sleep_for, direct, drive}
use triggerlink.Durable.Effect.{IsPlain, IsEffect}
use triggerlink.Agent.Options.{AgentTool, AgentOpts, Agent, LlmResponse}
use triggerlink.Agent.Memo.{AgentResult, is_llm_memo, assert_llm_memo}
use triggerlink.Agent.Loop.{prepare, llm_call, tool_call}
use triggerlink.Agent.Durably.Conversation.{at_last, again, nothing, use_tool, answers, goes_on}
use triggerlink.Agent.Durably.{AreEffects, agent_flow, tools_flow, iterations_flow}
use triggerlink.Agent.Durably.Execution.{
  agent_handler, ConversesWithin, drive-run_agent-eq-direct, drive-Converses_iff,
}
use triggerlink.Agent.Durably.Plan.{
  Plan, step, wait, converse, plan_handler, plan_flow, IsSound, drive-plan-eq-direct,
}
use triggerlink.Tests.Sample.{host, host-CollisionFree}

abbrev find : AgentTool ℕ
find = record {
  description = txt "find";
  parse = λ v. returned v;
  handler = λ v s. (returned (num (nat s.world)), record s { world = suc s.world });
}

abbrev call : Value
call = obj (
    field (txt "toolCallId") (str (txt "c"))
      (field (txt "toolName") (str (txt "find")) (field (txt "input") (num (nat 4)) end)))

abbrev pub response : List Value → LlmResponse
response calls = record {
  text = txt "text";
  tool_calls = calls;
  response_messages = nil;
  input_tokens = num (nat 3);
  output_tokens = num (nat 1);
}

-- the model, by the number of calls so far
abbrev reply : ℕ → Outcome LlmResponse
reply zero = threw (Thrown.error (txt "offline") none)
reply (suc zero) = returned (response (call ∷ []))
reply (suc (suc n)) = returned (response [])

abbrev pub options : AgentOpts ℕ
options = record {
  name = txt "a";
  has_model = true;
  generate = λ args s. (reply s.world, record s { world = suc s.world });
  system = none;
  tools = (txt "find", find) ∷ [];
  max_iterations = some (nat 2);
  max_output_tokens = none;
  prepare_messages = none;
  redact = none;
  on_response = none;
}

abbrev pub agent : Agent ℕ
agent = record { identity = 1; opts = options; max_iterations = 2 }

-- the text of the result
abbrev pub show : AgentResult → Value
show result = result.text

abbrev asking : TriggerFunction ℕ
asking = record {
  opts = record {
    id = txt "f";
    event = some (txt "asked");
    match = none;
    cron = none;
    retries = some (nat 4);
    cancel_on = none;
    timeout = none;
    debounce = none;
    throttle = none;
    batch = none;
    on_failure = none;
  };
  retries = nat 4;
  handler = λ context. agent_handler host agent (txt "hi") (λ result. finish (show result));
}

abbrev pub context : HandlerContext
context = record { event = null; events = none; run_id = null; attempt = null }

-- no question is asked
abbrev pub silent : Platform ℕ
silent = record {
  sleeps = λ until w. w;
  sends = λ events w. (null, w);
  waits = λ event match timeout w. (null, w);
}

reply-IsPlain : (n : ℕ) → IsPlain (reply n)
reply-IsPlain zero = tt
reply-IsPlain (suc zero) = tt
reply-IsPlain (suc (suc n)) = tt

only_tool : (name : Text) (def : AgentTool ℕ) → lookup name options.tools ≡ some def → find ≡ def
unfolding lookup
only_tool name def found = elim (Bool-cases (txt "find" == name)) [
  | inl e ↦ ap (λ o. or_else o find) (rw e at found)
  | inr e ↦ absurd (let none_found = rw e at found in cc)
]

pub options-AreEffects : AreEffects options
options-AreEffects = record {
  generate = λ args s. (refl, reply-IsPlain s.world);
  on_response = tt;
  redact = tt;
  prepare_messages = tt;
  parse = λ name def found v. subst (λ d. IsPlain (d.parse v)) (only_tool name def found) tt;
  handler = λ name def found v.
      subst (λ d. IsEffect (d.handler v)) (only_tool name def found) (λ s. (refl, tt));
}

one_agent_test :
    drive silent 5 asking (txt "f") context [] 0
    ≡ direct host silent 5 (agent_flow host agent (txt "hi") (λ result. finish (show result))) 0
one_agent_test =
    drive-run_agent-eq-direct host silent (txt "f") asking context agent (txt "hi") _ 5 0 refl
      options-AreEffects (host-CollisionFree (txt "f"))

durable_test :
    (drive silent 5 asking (txt "f") context [] 0 ≡ some (str (txt "text"), 4))
    ↔ ConversesWithin host agent (txt "hi") show 5 0 (str (txt "text")) 4
durable_test =
    drive-Converses_iff host silent (txt "f") asking context agent (txt "hi") show 5 0
      (str (txt "text")) 4 refl options-AreEffects (host-CollisionFree (txt "f"))

-- The first call fails, the second asks for the tool, and after the tool the third answers.
converses_test : ConversesWithin host agent (txt "hi") show 5 0 (str (txt "text")) 4
unfolding prepare llm_call tool_call lookup ◌==◌ prop is_llm_memo assert_llm_memo
converses_test = (
  4,
  _,
  omega arith,
  refl,
  goes_on refl (again refl (at_last refl)) refl (use_tool find refl (at_last refl) nothing)
      (answers refl (at_last refl) refl),
)

drive_test : drive silent 5 asking (txt "f") context [] 0 ≡ some (str (txt "text"), 4)
drive_test = durable_test.1 converses_test

-- The agent, a step, a sleep, another agent, and the first one again.
abbrev other_agent : Agent ℕ
other_agent = record { identity = 2; opts = record options { name = txt "b" }; max_iterations = 2 }

abbrev pub plan : Plan ℕ
plan = converse agent (txt "hi") (λ first.
    step (txt "note") (λ n. (done first.text, suc n))
      (λ noted. wait (txt "rest") (sleep_for nat (nat 1000)) (λ rested.
        converse other_agent (txt "more")
          (λ second. converse agent (txt "again") (λ third. Plan.finish third.text)))))

other-AreEffects : AreEffects (record options { name = txt "b" })
other-AreEffects = record {
  generate = λ args s. (refl, reply-IsPlain s.world);
  on_response = tt;
  redact = tt;
  prepare_messages = tt;
  parse = λ name def found v. subst (λ d. IsPlain (d.parse v)) (only_tool name def found) tt;
  handler = λ name def found v.
      subst (λ d. IsEffect (d.handler v)) (only_tool name def found) (λ s. (refl, tt));
}

pub plan-IsSound : IsSound [] plan
unfolding IsSound lookup insert ◌==◌
plan-IsSound = (
  inl refl,
  options-AreEffects,
  λ first noted rested.
      (inl refl, other-AreEffects, λ second. (inr refl, options-AreEffects, λ third. tt)),
)

abbrev pub planning : TriggerFunction ℕ
planning = record asking { handler = λ context. plan_handler host plan }

unlimited_test :
    drive silent 9 planning (txt "f") context [] 0 ≡ direct host silent 9 (plan_flow host plan) 0
unlimited_test =
    drive-plan-eq-direct host silent (txt "f") planning context plan 9 0 refl plan-IsSound
      (host-CollisionFree (txt "f"))

-- Nine callbacks: four for the first agent, one for the step, one for the sleep, one for each later agent, and one at the end.
plan_test : direct host silent 9 (plan_flow host plan) 0 ≡ some (str (txt "text"), 7)
unfolding direct plan_flow iterations_flow tools_flow prepare llm_call tool_call lookup ◌==◌ prop
    is_llm_memo assert_llm_memo add
plan_test = refl
