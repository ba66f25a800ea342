-- ===== src/Agent/Outcomes.antt =====
-- The result of `run` of an agent (sdk-ts/src/agent.ts) against the dialogue that it reports.
use triggerlink.Prelude.{
  ℕ, zero, suc, ◌+◌, ◌≤◌, ◌≡◌, ◌≢◌, ◌∙◌, sym, refl, subst, arith, true, none, some, List, [], ◌∷◌,
  ◌++◌, length, append-nil, append_assoc, Text, txt,
}
use triggerlink.Value.{nat, num, Value}
use triggerlink.Execx.{Host}
use triggerlink.Effects.{returned, State, Exec}
use triggerlink.Agent.Options.{AgentTool, AgentOpts, Agent}
use triggerlink.Agent.Memo.{AgentResult, Progress, add_memo, is_llm_memo}
use triggerlink.Agent.Loop.{
  run_agent, claim, iterate, act, exceeded, ask, run_tools, prepare, beginning, user_message,
  result_of,
}
use triggerlink.Agent.Dialogue.{
  Round, calls_of, IsDialogue, final, turn, transcript, all_records, total, padded, regroup,
}
use triggerlink.Agent.Returning.{bind-returned, Ends, pure-Ends, bind-Ends}
use triggerlink.Step.Memo.{next_memo, entered}
use triggerlink.Agent.Replay.{claimed, claim-returned}
use triggerlink.Agent.Completion.{HasRecords, recorded, HasRounds, llm_id, tool_id}
use triggerlink.Agent.Completion
use triggerlink.Agent.Finding.{AllRan, run_tools-Ends, Asked, ask-Ends, prepare-none}

module _ (host : Host) {W : Type 0} (opts : AgentOpts W) where
  -- What a result says of the rounds that led to it, from `p` and `s` on, with `left` iterations left.
  record Told (left i : ℕ) (p : Progress) (s : State W) (r : AgentResult) (s' : State W)
      : Type 0 where
    rounds : List Round
    dialogue : IsDialogue opts.tools r.text rounds
    memos : HasRounds host opts rounds s s'
    iterations : r.iterations ≡ i + length rounds
    bounded : length rounds ≤ left
    tool_calls : r.tool_calls ≡ p.tool_calls ++ all_records rounds
    input_tokens : r.input_tokens ≡ total (txt "inputTokens") p.input_tokens rounds
    output_tokens : r.output_tokens ≡ total (txt "outputTokens") p.output_tokens rounds
    output : opts.prepare_messages ≡ none → r.output ≡ p.messages ++ transcript rounds

  last_round :
      (left i : ℕ) (memo : Value) (p : Progress) (s : State W) (messages : List Value)
      → calls_of memo ≡ []
      → prepare host opts i p ≡ returned messages
      → next_memo host (llm_id host opts) s ≡ some memo
      → is_llm_memo memo ≡ true
      → Told
          (suc left)
          i
          p
          s
          (result_of memo (i + 1) (add_memo memo (record p { messages = messages })))
          (entered host (llm_id host opts) s)
  last_round left i memo p s messages none_called prepared found fine = record {
    rounds = record { memo = memo; records = [] } ∷ [];
    dialogue = final none_called refl;
    memos = Completion.final found fine none_called;
    iterations = refl;
    bounded = omega arith;
    tool_calls = sym (append-nil p.tool_calls);
    input_tokens = refl;
    output_tokens = refl;
    output =
        λ without. rw (prepare-none host opts i p messages without prepared) (padded messages _);
  }

  earlier_round :
      (left i : ℕ) (memo : Value) (p : Progress) (s t s' : State W) (messages : List Value)
      (q : Progress) (r : AgentResult)
      → calls_of memo ≢ []
      → prepare host opts i p ≡ returned messages
      → next_memo host (llm_id host opts) s ≡ some memo
      → is_llm_memo memo ≡ true
      → AllRan host opts
          (calls_of memo)
          (add_memo memo (record p { messages = messages }))
          (entered host (llm_id host opts) s)
          q
          t
      → Told left (i + 1) q t r s'
      → Told (suc left) i p s r s'
  earlier_round left i memo p s t s' messages q r called prepared found fine
        (records, answers, noted, same) after =
      let told = subst (λ q. Told left (i + 1) q t r s') same after in
      record {
        rounds = record { memo = memo; records = records } ∷ told.rounds;
        dialogue = turn called answers told.dialogue;
        memos = Completion.turn found fine called noted told.memos;
        iterations = omega (arith, told.iterations);
        bounded = omega (arith, told.bounded);
        tool_calls = told.tool_calls ∙ append_assoc p.tool_calls records (all_records told.rounds);
        input_tokens = told.input_tokens;
        output_tokens = told.output_tokens;
        output = λ without.
            told.output without
            ∙ rw (prepare-none host opts i p messages without prepared) (regroup messages _ _ _);
      }

  act-Ends :
      (left i : ℕ) (memo : Value) (calls : List Value) (p : Progress) (s : State W)
      (messages : List Value) (again : Progress → Exec W AgentResult)
      → calls_of memo ≡ calls
      → prepare host opts i p ≡ returned messages
      → next_memo host (llm_id host opts) s ≡ some memo
      → is_llm_memo memo ≡ true
      → ((q : Progress) (t : State W) → Ends (Told left (i + 1) q t) (again q t))
      → Ends (Told (suc left) i p s) (
          act host opts i memo calls
            (add_memo memo (record p { messages = messages }))
            again
            (entered host (llm_id host opts) s))
  act-Ends left i memo [] p s messages again called prepared found fine rest =
      pure-Ends _ _ _ (last_round left i memo p s messages called prepared found fine)
  act-Ends left i memo (call ∷ calls) p s messages again called prepared found fine rest =
      let asked = add_memo memo (record p { messages = messages }) in
      let u = entered host (llm_id host opts) s in
      bind-Ends (Told (suc left) i p s) (AllRan host opts (call ∷ calls) asked u)
        (run_tools host opts i (call ∷ calls) asked) again u
        (run_tools-Ends host opts i (call ∷ calls) asked u)
        (λ q t ran r s' e.
          earlier_round left i memo p s t s' messages q r (λ e. cc) prepared found fine
            (subst (λ c. AllRan host opts c asked u q t) (sym called) ran) (rest q t r s' e))

  iterate-Ends :
      (max left i : ℕ) (p : Progress) (s : State W)
      → Ends (Told left i p s) (iterate host opts max left i p s)
  unfolding iterate exceeded
  iterate-Ends max zero i p s = λ r s' e. absurd (cc)
  iterate-Ends max (suc left) i p s =
      bind-Ends _ (Asked host opts i p s) (ask host opts i p) _ s (ask-Ends host opts i p s)
        (λ a t (messages, prepared, same, found, fine, moved).
          subst
            (λ t.
              Ends (Told (suc left) i p s)
                (act host opts i a.0 (calls_of a.0) a.1 (iterate host opts max left (i + 1)) t))
            (sym moved)
            (subst
              (λ q. Ends (Told (suc left) i p s) (
                act host opts i a.0 (calls_of a.0) q (iterate host opts max left (i + 1))
                  (entered host (llm_id host opts) s)))
              (sym same)
              (act-Ends left i a.0 (calls_of a.0) p s messages _ refl prepared found fine
                (iterate-Ends max left (i + 1)))))

rounds_positive :
    {W : Type 0} (tools : List (Text × AgentTool W)) (text : Value) (rounds : List Round)
    → IsDialogue tools text rounds
    → 1 ≤ length rounds
rounds_positive tools text [] dialogue = elim dialogue [ ]
rounds_positive tools text (round ∷ rounds) dialogue = omega arith

-- Where `run` of an agent returns a result, the result reports a dialogue of at least one
-- and at most `max_iterations` rounds. The memos of the rounds and the outputs of their tool calls are those
-- that the steps find at their keys, from the state after the claim to the last state: one memo of a model call
-- for each round, and one of a tool's step for each of its tool calls. All rounds but the last have tool calls,
-- each answered in order by a tool of the agent, and the last has none and holds the text. `iterations`
-- is the number of the rounds, `toolCalls` is the records of all of them, whatever prepareMessages does
-- to the messages, and the usage sums theirs. Without prepareMessages the output is the user's
-- message and then the messages of the model and of the tools, round by round.
pub run_agent-IsDialogue :
    (host : Host) {W : Type 0} (agent : Agent W) (input : Text) (r : AgentResult) (s s' : State W)
    → run_agent host agent input s ≡ (returned r, s')
    → (rounds : List Round) × HasRounds host agent.opts rounds (claimed agent s) s'
      × IsDialogue agent.opts.tools r.text rounds
      × (r.iterations ≡ length rounds)
      × (1 ≤ r.iterations)
      × (r.iterations ≤ agent.max_iterations)
      × (r.tool_calls ≡ all_records rounds)
      × (r.input_tokens ≡ total (txt "inputTokens") (num (nat 0)) rounds)
      × (r.output_tokens ≡ total (txt "outputTokens") (num (nat 0)) rounds)
      × (agent.opts.prepare_messages ≡ none → r.output ≡ user_message input ∷ transcript rounds)
unfolding run_agent
run_agent-IsDialogue host agent input r s s' e =
    let (fine, t, taken, after) = bind-returned (claim host agent) _ r s s' e in
    let told =
      iterate-Ends host agent.opts agent.max_iterations agent.max_iterations 0 (beginning input) t r
        s' after in
    (
      told.rounds,
      subst (λ t. HasRounds host agent.opts told.rounds t s')
          (claim-returned host agent fine s t taken) told.memos,
      told.dialogue,
      omega (arith, told.iterations),
      omega (arith, told.iterations, rounds_positive _ _ _ told.dialogue),
      omega (arith, told.iterations, told.bounded),
      told.tool_calls,
      told.input_tokens,
      told.output_tokens,
      told.output,
    )
