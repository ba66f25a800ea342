-- ===== src/Agent/Completion.antt =====
-- `run` of an agent (sdk-ts/src/agent.ts) with a memo for every step of a dialogue.
use triggerlink.Prelude.{
  ℕ, zero, suc, ◌+◌, ◌≤◌, ◌≡◌, ◌≢◌, ◌∙◌, sym, refl, ap, arith, ◌⊎◌, inl, inr, none, some, true,
  List, [], ◌∷◌, ◌++◌, map, length, append-nil, append_assoc, Text, txt, lookup,
}
use triggerlink.Value.{Value, prop}
use triggerlink.Execx.{Host}
use triggerlink.Effects.{Outcome, returned, State, Exec, ◌>>=◌, lift, then_do}
use triggerlink.Step.{run}
use triggerlink.Step.Memo.{next_memo, entered, run_cases}
use triggerlink.Agent.Options.{AgentTool, AgentOpts, Agent}
use triggerlink.Agent.Memo.{
  AgentToolCallRecord, AgentResult, Progress, add_record, add_memo, tool_message, key_of,
  is_llm_memo, assert_llm_memo,
}
use triggerlink.Agent.Loop.{
  run_agent, claim, iterate, act, ask, run_tools, run_tool, tool_call, llm_call, prepare, beginning,
  user_message, record_of, result_of, step_id,
}
use triggerlink.Agent.Dialogue.{
  Round, calls_of, transcript, all_records, extend, extend-nil, extend-cons, padded, regroup,
}
use triggerlink.Agent.Replay.{claimed}

bind-step :
    {W A B : Type 0} (m : Exec W A) (k : A → Exec W B) {a : A} {o : Outcome B × State W}
    {s t : State W}
    → m s ≡ (returned a, t)
    → k a t ≡ o
    → (m >>= k) s ≡ o
bind-step m k first rest = ap (λ r. then_do r k) first ∙ rest

module _ (host : Host) {W : Type 0} where
  run-memo :
      (id : Text) (fn : Exec W Value) (s : State W) (v : Value)
      → next_memo host id s ≡ some v
      → run host id fn s ≡ (returned v, entered host id s)
  run-memo id fn s v found = elim (run_cases host id fn s) [
    | inl (v', found', how) ↦ cc
    | inr (op, missing, how) ↦ absurd (cc)
  ]

module _ (host : Host) {W : Type 0} (opts : AgentOpts W) where
  abbrev pub llm_id : Text
  llm_id = step_id opts.name none

  abbrev pub tool_id : Value → Text
  tool_id call = step_id opts.name (some (key_of (prop (txt "toolName") call)))

  -- From the first state on, the next calls of the tools' steps find the outputs of the records.
  pub data HasRecords : List Value → List AgentToolCallRecord → State W → State W → Type 0 where
    nothing : {s : State W} → HasRecords [] [] s s
    recorded :
        {call output : Value} {calls : List Value} {records : List AgentToolCallRecord}
        {s s' : State W} (def : AgentTool W)
        → lookup (key_of (prop (txt "toolName") call)) opts.tools ≡ some def
        → next_memo host (tool_id call) s ≡ some output
        → HasRecords calls records (entered host (tool_id call) s) s'
        → HasRecords (call ∷ calls) (record_of call output ∷ records) s s'

  -- From the first state on, the next steps find the memos of the rounds, up to one without tool calls.
  pub data HasRounds : List Round → State W → State W → Type 0 where
    final :
        {memo : Value} {s : State W}
        → next_memo host llm_id s ≡ some memo
        → is_llm_memo memo ≡ true
        → calls_of memo ≡ []
        → HasRounds (record { memo = memo; records = [] } ∷ []) s (entered host llm_id s)
    turn :
        {memo : Value} {records : List AgentToolCallRecord} {rounds : List Round} {s t s' : State W}
        → next_memo host llm_id s ≡ some memo
        → is_llm_memo memo ≡ true
        → calls_of memo ≢ []
        → HasRecords (calls_of memo) records (entered host llm_id s) t
        → HasRounds rounds t s'
        → HasRounds (record { memo = memo; records = records } ∷ rounds) s s'

  run_tools-HasRecords :
      (i : ℕ) {calls : List Value} {records : List AgentToolCallRecord} {s s' : State W}
      (p : Progress)
      → HasRecords calls records s s'
      → run_tools host opts i calls p s ≡ (returned (extend records p), s')
  unfolding run_tools run_tool
  run_tools-HasRecords i {s = s} p nothing = ap (λ q. (returned q, s)) (sym (extend-nil p))
  run_tools-HasRecords i {s = s} {s' = s'} p
        (recorded {call = call} {output = output} {records = records} def found memo rest) =
      rw (found, run-memo host (tool_id call) (tool_call host opts i def call) s output memo)
        (run_tools-HasRecords i (add_record (record_of call output) p) rest
          ∙ ap (λ q. (returned q, s')) (extend-cons (record_of call output) records p))

  prepare-plain :
      (i : ℕ) (p : Progress)
      → opts.prepare_messages ≡ none
      → prepare host opts i p ≡ returned p.messages
  unfolding prepare
  prepare-plain i p plain = rw plain

  assert_llm_memo-fine :
      (memo : Value) → is_llm_memo memo ≡ true → assert_llm_memo host opts.name memo ≡ returned tt
  unfolding assert_llm_memo
  assert_llm_memo-fine memo fine = rw fine

  ask-memo :
      (i : ℕ) (p : Progress) (memo : Value) (s : State W)
      → opts.prepare_messages ≡ none
      → next_memo host llm_id s ≡ some memo
      → is_llm_memo memo ≡ true
      → ask host opts i p s ≡ (returned (memo, add_memo memo p), entered host llm_id s)
  unfolding ask
  ask-memo i p memo s plain found fine =
      bind-step (lift _) _ (ap (λ o. (o, s)) (prepare-plain i p plain)) (
        bind-step (run host llm_id (llm_call host opts i p.messages)) _
          (run-memo host _ _ s memo found)
          (bind-step (lift _) _
            (ap (λ o. (o, entered host llm_id s)) (assert_llm_memo-fine memo fine)) refl))

  act-called :
      (i : ℕ) (memo : Value) (calls : List Value) (p q : Progress)
      (again : Progress → Exec W AgentResult) {r : Outcome AgentResult × State W} (s : State W)
      {t : State W}
      → calls ≢ []
      → run_tools host opts i calls p s ≡ (returned q, t)
      → again q t ≡ r
      → act host opts i memo calls p again s ≡ r
  act-called i memo [] p q again s called ran later = absurd (called refl)
  act-called i memo (call ∷ calls) p q again s called ran later =
      bind-step (run_tools host opts i (call ∷ calls) p) again ran later

  -- a result of the rounds, from the progress `p` of `i` iterations on
  abbrev Told : ℕ → Progress → List Round → AgentResult → Type 0
  Told i p rounds r =
      (r.iterations ≡ i + length rounds)
      × (r.tool_calls ≡ p.tool_calls ++ all_records rounds)
      × (r.output ≡ p.messages ++ transcript rounds)

  last-Told :
      (i : ℕ) (memo : Value) (p : Progress)
      → Told i p
          (record { memo = memo; records = [] } ∷ [])
          (result_of memo (i + 1) (add_memo memo p))
  last-Told i memo p = (refl, sym (append-nil p.tool_calls), padded p.messages _)

  earlier-Told :
      (i : ℕ) (memo : Value) (records : List AgentToolCallRecord) (rounds : List Round)
      (p : Progress) (r : AgentResult)
      → Told (i + 1) (extend records (add_memo memo p)) rounds r
      → Told i p (record { memo = memo; records = records } ∷ rounds) r
  earlier-Told i memo records rounds p r (iterations, tool_calls, output) = (
    omega (arith, iterations),
    tool_calls ∙ append_assoc p.tool_calls records (all_records rounds),
    output ∙ regroup p.messages _ (map tool_message records) (transcript rounds),
  )

  iterate-HasRounds :
      (max left i : ℕ) {rounds : List Round} {s s' : State W} (p : Progress)
      → opts.prepare_messages ≡ none
      → length rounds ≤ left
      → HasRounds rounds s s'
      → (r : AgentResult) × (iterate host opts max left i p s ≡ (returned r, s'))
        × Told i p rounds r
  unfolding iterate
  iterate-HasRounds max zero i p plain bound (final memo fine none_called) =
      absurd (omega (arith, bound))
  iterate-HasRounds max zero i p plain bound (turn memo fine called answers rest) =
      absurd (omega (arith, bound))
  iterate-HasRounds max (suc left) i {s = s} p plain bound
        (final {memo = memo} found fine none_called) =
      (
        result_of memo (i + 1) (add_memo memo p),
        bind-step (ask host opts i p) _ (ask-memo i p memo s plain found fine) (
            ap
              (λ calls.
                act host opts i memo calls (add_memo memo p) (iterate host opts max left (i + 1))
                  (entered host llm_id s))
              none_called),
        last-Told i memo p,
      )
  iterate-HasRounds max (suc left) i {s = s} p plain bound
        (turn {memo = memo} {records = records} {rounds = rounds} found fine called answers rest) =
      let q = extend records (add_memo memo p) in
      let (r, later, told) =
        iterate-HasRounds max left (i + 1) q plain (omega (arith, bound)) rest in
      (
        r,
        bind-step (ask host opts i p) _ (ask-memo i p memo s plain found fine) (
            act-called i memo (calls_of memo) (add_memo memo p) q _ _ called
              (run_tools-HasRecords i (add_memo memo p) answers) later),
        earlier-Told i memo records rounds p r told,
      )

module _ (host : Host) {W : Type 0} where
  pub claim-free :
      (agent : Agent W) (s : State W)
      → (lookup agent.opts.name s.claims ≡ none)
        ⊎ (lookup agent.opts.name s.claims ≡ some agent.identity)
      → claim host agent s ≡ (returned tt, claimed agent s)
  unfolding claim
  claim-free agent s (inl free) = rw free
  claim-free agent s (inr own) = rw own (ground arith)

  -- With the memos of a dialogue of at most `max_iterations` rounds, each at the key that its step comes
  -- to, an agent without prepareMessages whose name is free, or its own from an earlier run, returns: no
  -- step interrupts the call, and the result has the dialogue's rounds, tool calls and messages.
  pub run_agent-HasRounds :
      (agent : Agent W) (input : Text) (rounds : List Round) (s s' : State W)
      → agent.opts.prepare_messages ≡ none
      → (lookup agent.opts.name s.claims ≡ none)
        ⊎ (lookup agent.opts.name s.claims ≡ some agent.identity)
      → length rounds ≤ agent.max_iterations
      → HasRounds host agent.opts rounds (claimed agent s) s'
      → (r : AgentResult) × (run_agent host agent input s ≡ (returned r, s'))
        × (r.iterations ≡ length rounds)
        × (r.tool_calls ≡ all_records rounds)
        × (r.output ≡ user_message input ∷ transcript rounds)
  unfolding run_agent
  run_agent-HasRounds agent input rounds s s' plain free bound memos =
      let (r, ran, (iterations, tool_calls, output)) =
        iterate-HasRounds host agent.opts agent.max_iterations agent.max_iterations 0
          (beginning input) plain bound memos in
      (
        r,
        bind-step (claim host agent) _ (claim-free agent s free) ran,
        omega (arith, iterations),
        tool_calls,
        output,
      )
