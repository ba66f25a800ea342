-- ===== src/Tests/Conversing.antt =====
-- Agents, over memos of a model call that asks for a tool, of the tool, and of the answer.
use triggerlink.Prelude.{
  ℕ, suc, ◌≡◌, ◌≤◌, ◌↔◌, inl, refl, none, some, true, List, [], ◌∷◌, Text, txt, insert, lookup,
  ◌==◌, arith, length,
}
use triggerlink.Prelude.Decimal.{print}
use triggerlink.Value
use triggerlink.Value.{
  Value, Number, nat, null, num, str, arr, obj, nil, cons, field, end, prop, add,
}
use triggerlink.Addition.{plus, shown_value}
use triggerlink.Duration.{print_number}
use triggerlink.Execx.{StepState, Thrown, next_hash, hash_input}
use triggerlink.Effects.{returned, threw, State, Exec}
use triggerlink.Step.{run, enter, memo_of}
use triggerlink.Step.Memo.{entered}
use triggerlink.Agent.Options.{AgentTool, AgentOpts, Agent, create_agent}
use triggerlink.Agent.Options.Creation.{IsName, IsAccepted, create_agent_iff}
use triggerlink.Agent.Memo.{
  AgentResult, AgentToolCallRecord, tool_message, is_llm_memo, assert_llm_memo, agent_error,
}
use triggerlink.Agent.Loop.{
  run_agent, claim, iterate, ask, run_tools, run_tool, prepare, record_of, user_message, exceeded,
}
use triggerlink.Agent.Replay.{claimed, swapped_agent, run_agent-Replays}
use triggerlink.Agent.Dialogue.{Round, IsDialogue, all_records, total, transcript}
use triggerlink.Agent.Outcomes.{run_agent-IsDialogue}
use triggerlink.Agent.Completion.{HasRounds, nothing, recorded, turn, final, run_agent-HasRounds}
use triggerlink.Agent.Answer.{run_agent-last_text}
use triggerlink.Agent.Names.{step_id_injective, run_agent-other}
use triggerlink.Messages.{
  last_assistant_text, prepared_refusal, check_messages, check_parts, part_event, has, include,
  exclude, elements,
}
use triggerlink.Messages.Pairing.{IsWellFormed, prepared_refusal-none_iff}
use triggerlink.Tests.Sample.{host}

abbrev search : AgentTool ℕ
search = record {
  description = txt "find";
  parse = λ v. returned v;
  handler = λ v s. (returned null, s);
}

abbrev options : AgentOpts ℕ
options = record {
  name = txt "a";
  has_model = true;
  generate = λ args s. (threw (Thrown.other (txt "offline")), record s { world = suc s.world });
  system = none;
  tools = (txt "find", search) ∷ [];
  max_iterations = some (nat 2);
  max_output_tokens = none;
  prepare_messages = none;
  redact = none;
  on_response = none;
}

abbrev agent : Agent ℕ
agent = record { identity = 1; opts = options; max_iterations = 2 }

abbrev call : Value
call = obj (
    field (txt "toolCallId") (str (txt "c"))
      (field (txt "toolName") (str (txt "find")) (field (txt "input") (num (nat 4)) end)))

-- a message of the assistant
abbrev said : Text → Value
said text = obj (field (txt "role") (str (txt "assistant")) (field (txt "content") (str text) end))

-- the memo of a model call
abbrev memo_with : Text → Value.Values → Value
memo_with text calls = obj (
    field (txt "text") (str text) (
      field (txt "toolCalls") (arr calls) (
        field (txt "responseMessages") (arr (cons (said text) nil))
          (field (txt "usage") (obj (field (txt "inputTokens") (num (nat 3)) end)) end))))

abbrev first_memo : Value
first_memo = memo_with (txt "wait") (cons call nil)

abbrev last_memo : Value
last_memo = memo_with (txt "done") nil

abbrev stored : Text → ℕ → Value → Text × StepState
stored id n output =
    (hash_input (txt "f") id n, record { id = id; status = txt "completed"; output = output })

abbrev start : State ℕ
start = record {
  ec = record {
    function_id = txt "f";
    steps =
        stored (txt "agent/a") 0 first_memo
        ∷ stored (txt "agent/a/find") 0 (num (nat 5))
        ∷ stored (txt "agent/a") 1 last_memo
        ∷ [];
    counters = [];
  };
  claims = [];
  world = 0;
}

abbrev outcome : Exec ℕ AgentResult
outcome = run_agent host agent (txt "hi")

abbrev records : List AgentToolCallRecord
records = record_of call (num (nat 5)) ∷ []

abbrev rounds : List Round
rounds =
    record { memo = first_memo; records = records } ∷ record { memo = last_memo; records = [] } ∷ []

abbrev answer : Value
answer = str (txt "done")

abbrev report : AgentResult
report = record {
  text = answer;
  iterations = 2;
  input_tokens = num (nat 6);
  output_tokens = num (nat 0);
  tool_calls = records;
  output =
      user_message (txt "hi")
      ∷ said (txt "wait")
      ∷ tool_message (record_of call (num (nat 5)))
      ∷ said (txt "done")
      ∷ [];
}

abbrev stop : State ℕ
stop = (outcome start).1

outcome_test : outcome start ≡ (returned report, stop)
unfolding run_agent claim iterate exceeded ask run_tools run_tool prepare run enter next_hash
    memo_of insert lookup hash_input print ◌==◌ prop plus add is_llm_memo assert_llm_memo
    agent_error
outcome_test = refl

-- a usage that is no number: a text is put behind the sum's digits, and true counts as one
plus_test :
    (plus (num (nat 3)) (str (txt "4")) ≡ str (txt "34"))
    × (plus (num (nat 3)) (Value.bool true) ≡ num (nat 4))
    × (plus (num (nat 3)) (arr (cons (num (nat 4)) (cons null nil))) ≡ str (txt "34,"))
unfolding plus add shown_value print_number print
plus_test = (refl, refl, refl)

run_agent-Replays_example :
    (run_agent host
        (swapped_agent host options.generate none none (λ def. search) agent)
        (txt "hi")
        start
      ≡ (returned report, stop))
    × (stop.world ≡ 0)
    × (stop.claims ≡ (claimed agent start).claims)
run_agent-Replays_example =
    run_agent-Replays host options.generate none none (λ def. search) agent (txt "hi") report start
      stop outcome_test

memos : HasRounds host options rounds (claimed agent start) (
    entered host
      (txt "agent/a")
      (entered host (txt "agent/a/find") (entered host (txt "agent/a") (claimed agent start))))
unfolding enter next_hash memo_of insert lookup hash_input print ◌==◌ prop is_llm_memo
memos = turn refl refl (λ e. cc) (recorded search refl refl nothing) (final refl refl refl)

run_agent-IsDialogue_example :
    (rounds : List Round) × HasRounds host options rounds (claimed agent start) stop
    × IsDialogue options.tools answer rounds
    × (2 ≡ length rounds)
    × (1 ≤ 2)
    × (2 ≤ 2)
    × (records ≡ all_records rounds)
    × (num (nat 6) ≡ total (txt "inputTokens") (num (nat 0)) rounds)
    × (num (nat 0) ≡ total (txt "outputTokens") (num (nat 0)) rounds)
    × (options.prepare_messages ≡ none
        → report.output ≡ user_message (txt "hi") ∷ transcript rounds)
run_agent-IsDialogue_example =
    run_agent-IsDialogue host agent (txt "hi") report start stop outcome_test

free : lookup (txt "a") start.claims ≡ none
unfolding lookup
free = refl

run_agent-HasRounds_example :
    (r : AgentResult) × (run_agent host agent (txt "hi") start ≡ (
      returned r,
      entered host
          (txt "agent/a")
          (entered host (txt "agent/a/find") (entered host (txt "agent/a") (claimed agent start))),
    ))
    × (r.iterations ≡ 2)
    × (r.tool_calls ≡ all_records rounds)
    × (r.output ≡ user_message (txt "hi") ∷ transcript rounds)
run_agent-HasRounds_example =
    run_agent-HasRounds host agent (txt "hi") rounds start _ refl (inl free) (omega arith) memos

run_agent-last_text_example :
    (r : AgentResult) × (run_agent host agent (txt "hi") start ≡ (
      returned r,
      entered host
          (txt "agent/a")
          (entered host (txt "agent/a/find") (entered host (txt "agent/a") (claimed agent start))),
    ))
    × (last_assistant_text r.output ≡ some (txt "done"))
unfolding prop ◌==◌
run_agent-last_text_example =
    run_agent-last_text host agent (txt "hi") (record { memo = first_memo; records = records } ∷ [])
      last_memo [] (said (txt "done")) [] start _ refl (inl free) (omega arith) memos refl refl tt

create_agent_iff_example :
    ((made : Agent ℕ) × (create_agent host 1 options ≡ returned made)) ↔ IsAccepted options
create_agent_iff_example = create_agent_iff host 1 options

a-IsName : IsName (txt "a")
a-IsName = (λ e. cc, (λ e. omega (arith, e), tt))

step_id_test : (txt "a" ≡ txt "a") × (some (txt "find") ≡ some (txt "find"))
step_id_test =
    step_id_injective (txt "a") (txt "a") (some (txt "find")) (some (txt "find")) a-IsName a-IsName
      refl

run_agent-other_example :
    (e : Thrown) × (run_agent host (record agent { identity = 2 }) (txt "hi") stop
      ≡ (threw e, stop))
run_agent-other_example =
    run_agent-other host agent (record agent { identity = 2 }) (txt "hi") (txt "hi") report start
      stop outcome_test refl (λ e. omega (arith, e))

-- a call and its result
abbrev part : Text → Value
part kind = obj (field (txt "type") (str kind) (field (txt "toolCallId") (str (txt "c")) end))

abbrev message : Text → Text → Value
message role kind =
    obj (field (txt "role") (str role) (field (txt "content") (arr (cons (part kind) nil)) end))

abbrev prepared : Value
prepared = arr (
    cons (message (txt "assistant") (txt "tool-call"))
      (cons (message (txt "tool") (txt "tool-result")) nil))

prepared_refusal_test : prepared_refusal prepared ≡ none
unfolding prepared_refusal check_messages check_parts part_event has include exclude prop ◌==◌
prepared_refusal_test = refl

prepared_refusal-none_iff_example : (prepared_refusal prepared ≡ none) ↔ (
    (m : Value) × (ms : List Value) × (elements prepared ≡ some (m ∷ ms)) × IsWellFormed (m ∷ ms))
prepared_refusal-none_iff_example = prepared_refusal-none_iff prepared
