-- ===== src/Agent/Finding.antt =====
-- What the model call and the tool calls of a round (sdk-ts/src/agent.ts) have found where they return.
use triggerlink.Prelude.{
  ℕ, ◌≡◌, ◌∙◌, sym, refl, ap, subst, inl, inr, true, Bool-cases, Option, none, some, List, [], ◌∷◌,
  Text, txt, lookup,
}
use triggerlink.Value.{Value, prop}
use triggerlink.Execx.{Host}
use triggerlink.Effects.{returned, State}
use triggerlink.Agent.Options.{AgentTool, AgentOpts}
use triggerlink.Agent.Memo.{
  AgentToolCallRecord, Progress, add_record, add_memo, key_of, assert_llm_memo, is_llm_memo,
  agent_error,
}
use triggerlink.Agent.Loop.{
  tool_call, llm_call, ask, run_tools, run_tool, found_tool, prepare, record_of,
}
use triggerlink.Agent.Dialogue.{Answers, nothing, answered, extend, extend-nil, extend-cons}
use triggerlink.Agent.Returning.{
  returned_injective, Ends, lift-Ends, pure-Ends, run-Ends, bind-Ends,
}
use triggerlink.Step.Memo.{next_memo, entered}
use triggerlink.Agent.Completion.{HasRecords, recorded, HasRounds, llm_id, tool_id}
use triggerlink.Agent.Completion

module _ (host : Host) {W : Type 0} (opts : AgentOpts W) where
  pub found_tool-returned :
      (asked : Text) (o : Option (AgentTool W)) (def : AgentTool W)
      → found_tool host opts.name asked o ≡ returned def
      → o ≡ some def
  found_tool-returned asked none def e = absurd (cc)
  found_tool-returned asked (some other) def e = ap some (returned_injective e)

  -- what one tool call comes to, from the state `s` on
  abbrev pub Ran : Value → Progress → State W → Progress → State W → Type 0
  Ran call p s q s' =
      (def : AgentTool W) × (output : Value) × (lookup (key_of (prop (txt "toolName") call))
          opts.tools
        ≡ some def)
      × (next_memo host (tool_id host opts call) s ≡ some output)
      × (s' ≡ entered host (tool_id host opts call) s)
      × (q ≡ add_record (record_of call output) p)

  pub run_tool-Ends :
      (i : ℕ) (call : Value) (p : Progress) (s : State W)
      → Ends (Ran call p s) (run_tool host opts i call p s)
  unfolding run_tool
  run_tool-Ends i call p s =
      lift-Ends (Ran call p s) (found_tool host opts.name _ _) _ s (λ def found.
        run-Ends (Ran call p s) host (tool_id host opts call) (tool_call host opts i def call) _ s
          (λ output memo.
            pure-Ends (Ran call p s) (add_record (record_of call output) p) _
              (def, output, found_tool-returned _ _ def found, memo, refl, refl)))

  abbrev pub AllRan : List Value → Progress → State W → Progress → State W → Type 0
  AllRan calls p s q s' =
      (records : List AgentToolCallRecord) × Answers opts.tools calls records
      × HasRecords host opts calls records s s'
      × (q ≡ extend records p)

  add-Ran :
      (call : Value) (calls : List Value) (p p' q : Progress) (s t s' : State W)
      → Ran call p s p' t
      → AllRan calls p' t q s'
      → AllRan (call ∷ calls) p s q s'
  add-Ran call calls p p' q s t s' (def, output, found, memo, moved, added)
        (records, rest, memos, same) =
      (
        record_of call output ∷ records,
        answered def found rest,
        recorded def found memo (subst (λ u. HasRecords host opts calls records u s') moved memos),
        same ∙ ap (extend records) added ∙ extend-cons (record_of call output) records p,
      )

  pub run_tools-Ends :
      (i : ℕ) (calls : List Value) (p : Progress) (s : State W)
      → Ends (AllRan calls p s) (run_tools host opts i calls p s)
  unfolding run_tools
  run_tools-Ends i [] p s =
      pure-Ends (AllRan [] p s) p s ([], nothing, Completion.nothing, sym (extend-nil p))
  run_tools-Ends i (call ∷ calls) p s =
      bind-Ends (AllRan (call ∷ calls) p s) (Ran call p s) (run_tool host opts i call p) _ s
        (run_tool-Ends i call p s)
        (λ p' t ran q s' e.
          add-Ran call calls p p' q s t s' ran (run_tools-Ends i calls p' t q s' e))

  abbrev pub Asked : ℕ → Progress → State W → Value × Progress → State W → Type 0
  Asked i p s a s' =
      (messages : List Value) × (prepare host opts i p ≡ returned messages)
      × (a.1 ≡ add_memo a.0 (record p { messages = messages }))
      × (next_memo host (llm_id host opts) s ≡ some a.0)
      × (is_llm_memo a.0 ≡ true)
      × (s' ≡ entered host (llm_id host opts) s)

  assert_llm_memo-returned :
      (memo : Value) (u : Unit {0})
      → assert_llm_memo host opts.name memo ≡ returned u
      → is_llm_memo memo ≡ true
  unfolding assert_llm_memo agent_error
  assert_llm_memo-returned memo u e = elim (Bool-cases (is_llm_memo memo)) [
    | inl fine ↦ fine
    | inr damaged ↦ absurd (let threw_it = rw damaged at e in cc)
  ]

  pub ask-Ends : (i : ℕ) (p : Progress) (s : State W) → Ends (Asked i p s) (ask host opts i p s)
  unfolding ask
  ask-Ends i p s = lift-Ends (Asked i p s) (prepare host opts i p) _ s (λ messages prepared.
      run-Ends (Asked i p s) host (llm_id host opts) (llm_call host opts i messages) _ s
        (λ memo found.
          lift-Ends (Asked i p s) (assert_llm_memo host opts.name memo) _ _ (λ u checked.
            pure-Ends (Asked i p s) (memo, add_memo memo (record p { messages = messages })) _
              (messages, prepared, refl, found, assert_llm_memo-returned memo u checked, refl))))

  prepared_plain :
      (i : ℕ) (p : Progress)
      → opts.prepare_messages ≡ none
      → prepare host opts i p ≡ returned p.messages
  unfolding prepare
  prepared_plain i p without = rw without

  pub prepare-none :
      (i : ℕ) (p : Progress) (messages : List Value)
      → opts.prepare_messages ≡ none
      → prepare host opts i p ≡ returned messages
      → p.messages ≡ messages
  prepare-none i p messages without e = returned_injective (sym (prepared_plain i p without) ∙ e)
