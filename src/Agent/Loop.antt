-- ===== src/Agent/Loop.antt =====
-- The loop of `run` of an agent in sdk-ts/src/agent.ts.
use triggerlink.Prelude.{
  ℕ, zero, suc, ◌+◌, Option, none, some, List, [], ◌∷◌, ◌++◌, Text, txt, nat_eq, lookup, insert,
  if◌then◌else◌,
}
use triggerlink.Prelude.Decimal.{print}
use triggerlink.Value.{nat, num, Value, str, prop, obj, field, end}
use triggerlink.Execx.{Host}
use triggerlink.Effects.{Outcome, returned, threw, new_error, Exec, ◌>>=◌, ◌>>◌, pure, lift}
use triggerlink.Step.{run}
use triggerlink.Messages.{elements, prepared_refusal}
use triggerlink.Agent.Options.{
  AgentTool, llm, tool, RedactCtx, AgentIterationResult, AgentOpts, Agent,
}
use triggerlink.Agent.Memo.{
  AgentToolCallRecord, AgentResult, memo_object, list_of, key_of, Progress, add_record, add_memo,
  agent_error, assert_llm_memo,
}

-- `redact ? redact(v, ctx) : v`
abbrev pub redacted : Option (Value → RedactCtx → Outcome Value) → Value → RedactCtx → Outcome Value
redacted none v ctx = returned v
redacted (some redact) v ctx = redact v ctx

abbrev pub result_of : Value → ℕ → Progress → AgentResult
result_of memo iterations p = record {
  text = prop (txt "text") memo;
  iterations = iterations;
  input_tokens = p.input_tokens;
  output_tokens = p.output_tokens;
  tool_calls = p.tool_calls;
  output = p.messages;
}

-- the step ids: of a model call, and of a call of a tool
abbrev pub step_id : (name : Text) → (tool_name : Option Text) → Text
step_id name none = txt "agent/" ++ name
step_id name (some tool_name) = txt "agent/" ++ (name ++ (b'/' ∷ tool_name))

abbrev pub name_taken : Text
name_taken =
    txt
      "another agent with the same name already ran in this function; names must be unique per function (memo key prefix collision)"

abbrev pub record_of : (call output : Value) → AgentToolCallRecord
record_of call output = record {
  tool_call_id = prop (txt "toolCallId") call;
  tool_name = prop (txt "toolName") call;
  input = prop (txt "input") call;
  output = output;
}

-- `{ role: "user", content: input }`
abbrev pub user_message : Text → Value
user_message input =
    obj (field (txt "role") (str (txt "user")) (field (txt "content") (str input) end))

-- what the loop carries before its first iteration
abbrev pub beginning : Text → Progress
beginning input = record {
  messages = user_message input ∷ [];
  previous_usage = none;
  input_tokens = num (nat 0);
  output_tokens = num (nat 0);
  tool_calls = [];
}

abbrev reason : Option Text → Text
reason none = []
reason (some why) = why

module _ (host : Host) where
  -- what `prepareMessages` returned, if its shape holds
  abbrev pub accepted : Text → Option (List Value) → Option Text → Outcome (List Value)
  accepted name (some messages) none = returned messages
  accepted name messages why = threw (
      new_error host (
        txt "agent \""
        ++ (name
            ++ (txt "\": prepareMessages returned an invalid message list ("
                ++ (reason why ++ txt ")")))))

  abbrev pub check_prepared : Text → Outcome Value → Outcome (List Value)
  check_prepared name (threw e) = threw e
  check_prepared name (returned v) = accepted name (elements v) (prepared_refusal v)

  unfoldable pub exceeded : Text → ℕ → Outcome AgentResult
  exceeded name max = threw (
      new_error host (
        txt "agent \"" ++ (name ++ (txt "\": maxIterations (" ++ (print max ++ txt ") exceeded")))))

module _ (host : Host) {W : Type 0} where
  -- `await opts.lifecycle?.onResponse?.(…)`
  abbrev pub respond :
      Option (AgentIterationResult → ℕ → Exec W (Unit {0})) → Value → ℕ → Exec W (Unit {0})
  respond none out i = pure tt
  respond (some hook) out i =
      hook
        (record {
          text = prop (txt "text") out;
          output = prop (txt "responseMessages") out;
          tool_calls = prop (txt "toolCalls") out;
          usage = prop (txt "usage") out;
        })
        i

  -- the function of the step of a model call
  unfoldable pub llm_call : AgentOpts W → ℕ → List Value → Exec W Value
  llm_call opts i messages = do
    res ← opts.generate (record {
      system = opts.system;
      messages = messages;
      max_output_tokens = opts.max_output_tokens;
    })
    out ← lift (
        redacted opts.redact (memo_object res)
          (record { kind = llm; iteration = i; tool_name = none }))
    lift (assert_llm_memo host opts.name out)
    respond opts.on_response out i
    pure out

  -- the function of the step of a tool call
  unfoldable pub tool_call : AgentOpts W → ℕ → AgentTool W → Value → Exec W Value
  tool_call opts i def call = do
    input ← lift (def.parse (prop (txt "input") call))
    out ← def.handler input
    lift (
        redacted opts.redact out (record {
          kind = tool;
          iteration = i;
          tool_name = some (key_of (prop (txt "toolName") call));
        }))

  -- `toolDefs[call.toolName]`, or the error
  abbrev pub found_tool : Text → Text → Option (AgentTool W) → Outcome (AgentTool W)
  found_tool name asked none = threw (
      new_error host (
        txt "agent \""
        ++ (name ++ (txt "\": model called unknown tool \"" ++ (asked ++ txt "\"")))))
  found_tool name asked (some def) = returned def

  -- one round of the loop over the tool calls
  unfoldable pub run_tool : AgentOpts W → ℕ → Value → Progress → Exec W Progress
  run_tool opts i call p =
      let asked = key_of (prop (txt "toolName") call) in
      do
        def ← lift (found_tool opts.name asked (lookup asked opts.tools))
        output ← run host (step_id opts.name (some asked)) (tool_call opts i def call)
        pure (add_record (record_of call output) p)

  unfoldable pub run_tools : AgentOpts W → ℕ → List Value → Progress → Exec W Progress
  run_tools opts i [] p = pure p
  run_tools opts i (call ∷ calls) p = run_tool opts i call p >>= run_tools opts i calls

  -- the messages of an iteration, from the hook where there is one
  unfoldable pub prepare : AgentOpts W → ℕ → Progress → Outcome (List Value)
  prepare opts i p = elim opts.prepare_messages [
    | none ↦ returned p.messages
    | some hook ↦
        check_prepared host opts.name (
          hook (record { messages = p.messages; iteration = i; previous_usage = p.previous_usage }))
  ]

  -- an iteration up to the return or the tool calls: the memo, and what the loop then carries
  unfoldable pub ask : AgentOpts W → ℕ → Progress → Exec W (Value × Progress)
  ask opts i p = do
    messages ← lift (prepare opts i p)
    memo ← run host (step_id opts.name none) (llm_call opts i messages)
    lift (assert_llm_memo host opts.name memo)
    pure (memo, add_memo memo (record p { messages = messages }))

  -- the return where there is no tool call; else the tools, and the iterations after them
  abbrev pub act :
      AgentOpts W
      → ℕ
      → Value
      → List Value
      → Progress
      → (Progress → Exec W AgentResult)
      → Exec W AgentResult
  act opts i memo [] p again = pure (result_of memo (i + 1) p)
  act opts i memo (call ∷ calls) p again = run_tools opts i (call ∷ calls) p >>= again

  -- `left` iterations remain of `max`, and `i` have been made
  unfoldable pub iterate : AgentOpts W → (max left i : ℕ) → Progress → Exec W AgentResult
  iterate opts max zero i p = lift (exceeded host opts.name max)
  iterate opts max (suc left) i p = ask opts i p >>= λ asked.
      act opts i asked.0 (list_of (prop (txt "toolCalls") asked.0)) asked.1
        (iterate opts max left (i + 1))

  -- `claimedNames`: the name is free, or this agent has it
  abbrev pub take_claim : Agent W → Option ℕ → Exec W (Unit {0})
  take_claim agent none s =
      (returned tt, record s { claims = insert agent.opts.name agent.identity s.claims })
  take_claim agent (some other) s =
      if nat_eq other agent.identity
      then (returned tt, record s { claims = insert agent.opts.name agent.identity s.claims })
      else (agent_error host agent.opts.name name_taken, s)

  unfoldable pub claim : Agent W → Exec W (Unit {0})
  claim agent s = take_claim agent (lookup agent.opts.name s.claims) s

  unfoldable pub run_agent : Agent W → Text → Exec W AgentResult
  run_agent agent input =
      claim agent
      >> iterate agent.opts agent.max_iterations agent.max_iterations 0 (beginning input)
