-- ===== src/Agent/Replay.antt =====
-- A call of `run` of an agent (sdk-ts/src/agent.ts) that gets a result: its effects, and what the result
-- depends on.
use triggerlink.Prelude.{
  ℕ, zero, suc, ◌+◌, ◌≡◌, ◌∙◌, sym, refl, ap, arith, inl, inr, Option, none, some, Bool-cases, List,
  [], ◌∷◌, Text, txt, lookup, insert, nat_eq, ◌≢◌,
}
use triggerlink.Value.{Value, prop}
use triggerlink.Execx.{Host, Thrown}
use triggerlink.Effects.{Outcome, returned, threw, State, Exec, ◌>>=◌, lift}
use triggerlink.Step.{run, enter}
use triggerlink.Step.Memo.{run_cases}
use triggerlink.Agent.Options.{
  AgentTool, AgentOpts, Agent, GenerateArgs, LlmResponse, AgentIterationResult, RedactCtx,
}
use triggerlink.Agent.Memo.{AgentResult, key_of, Progress, assert_llm_memo, add_memo, agent_error}
use triggerlink.Agent.Returning.{bind-returned}
use triggerlink.Agent.Loop.{
  run_agent, claim, take_claim, iterate, act, ask, run_tools, run_tool, beginning, found_tool,
  prepare,
}

-- Where `m` returns, it leaves the world and the names alone, and `n` returns the same.
abbrev pub Replays : {W A : Type 0} → Exec W A → Exec W A → Type 0
Replays {W} {A} m n =
    (a : A) (s s' : State W)
    → m s ≡ (returned a, s')
    → (n s ≡ (returned a, s')) × (s'.world ≡ s.world) × (s'.claims ≡ s.claims)

module _ {W A : Type 0} where
  lift-Replays : (o : Outcome A) → Replays {W = W} (lift o) (lift o)
  lift-Replays o a s s' e = (e, ap (λ r. r.1.world) (sym e), ap (λ r. r.1.claims) (sym e))

module _ {W A B : Type 0} where
  bind-Replays :
      (m n : Exec W A) (k l : A → Exec W B)
      → Replays m n
      → ((a : A) → Replays (k a) (l a))
      → Replays (m >>= k) (n >>= l)
  bind-Replays m n k l first rest b s s' e =
      let (a, t, before, after) = bind-returned m k b s s' e in
      let (same, world, claims) = first a s t before in
      let (same', world', claims') = rest a b t s' after in
      (rw same same', world' ∙ world, claims' ∙ claims)

threw-ne-returned : {A : Type 0} {e : Thrown} {a : A} → threw e ≢ returned a
threw-ne-returned p = cc

-- the state after an agent has taken its name
abbrev pub claimed : {W : Type 0} → Agent W → State W → State W
claimed agent s = record s { claims = insert agent.opts.name agent.identity s.claims }

-- the tools with the same names, each changed
abbrev pub over :
    {W : Type 0}
    → (AgentTool W → AgentTool W)
    → List (Text × AgentTool W)
    → List (Text × AgentTool W)
over change [] = []
over change ((name, def) ∷ tools) = (name, change def) ∷ over change tools

abbrev map_option : {A B : Type 0} → (A → B) → Option A → Option B
map_option f none = none
map_option f (some a) = some (f a)

lookup-over :
    {W : Type 0} (change : AgentTool W → AgentTool W) (name : Text)
    (tools : List (Text × AgentTool W))
    → lookup name (over change tools) ≡ map_option change (lookup name tools)
unfolding lookup
lookup-over change name [] = refl
lookup-over change name ((other, def) ∷ tools) = ground (arith, lookup-over change name tools)

module _ (host : Host) {W : Type 0} where
  run-Replays : (id : Text) (fn fn' : Exec W Value) → Replays (run host id fn) (run host id fn')
  unfolding enter
  run-Replays id fn fn' a s s' e = elim (run_cases host id fn s) [
    | inr (op, missing, how) ↦ absurd (cc)
    | inl (v, found, how) ↦ elim (run_cases host id fn' s) [
      | inr (op, missing, how') ↦ absurd (cc)
      | inl (v', found', how') ↦
          (cc, ap (λ r. r.1.world) (sym e ∙ how), ap (λ r. r.1.claims) (sym e ∙ how))
    ]
  ]

  found-Replays :
      {B : Type 0} (name asked : Text) (change : AgentTool W → AgentTool W)
      (o : Option (AgentTool W)) (k l : AgentTool W → Exec W B)
      → ((def : AgentTool W) → Replays (k def) (l (change def)))
      → Replays
          (lift (found_tool host name asked o) >>= k)
          (lift (found_tool host name asked (map_option change o)) >>= l)
  found-Replays name asked change none k l rest b s s' e = absurd (cc)
  found-Replays name asked change (some def) k l rest b s s' e = rest def b s s' e

  -- a claim that lets an agent run
  take_claim-returned :
      (agent : Agent W) (o : Option ℕ) (u : Unit {0}) (s s' : State W)
      → take_claim host agent o s ≡ (returned u, s')
      → s' ≡ claimed agent s
  unfolding agent_error
  take_claim-returned agent none u s s' e = ap (λ r. r.1) (sym e)
  take_claim-returned agent (some other) u s s' e =
      elim (Bool-cases (nat_eq other agent.identity)) [
        | inl same ↦ ap (λ r. r.1) (sym (rw same at e))
        | inr differs ↦ absurd (threw-ne-returned (ap (λ r. r.0) (rw differs at e)))
      ]

  pub claim-returned :
      (agent : Agent W) (u : Unit {0}) (s s' : State W)
      → claim host agent s ≡ (returned u, s')
      → s' ≡ claimed agent s
  unfolding claim
  claim-returned agent u s s' e =
      take_claim-returned agent (lookup agent.opts.name s.claims) u s s' e

-- Other generateText, hooks of the model's step and tools of the same names.
module _ (host : Host) {W : Type 0} (generate : GenerateArgs → Exec W LlmResponse)
    (redact : Option (Value → RedactCtx → Outcome Value))
    (on_response : Option (AgentIterationResult → ℕ → Exec W (Unit {0})))
    (change : AgentTool W → AgentTool W) where
  abbrev pub swapped : AgentOpts W → AgentOpts W
  swapped opts = record opts {
    generate = generate;
    redact = redact;
    on_response = on_response;
    tools = over change opts.tools;
  }

  abbrev pub swapped_agent : Agent W → Agent W
  swapped_agent agent = record agent { opts = swapped agent.opts }

  run_tool-Replays :
      (opts : AgentOpts W) (i : ℕ) (call : Value) (p : Progress)
      → Replays (run_tool host opts i call p) (run_tool host (swapped opts) i call p)
  unfolding run_tool
  run_tool-Replays opts i call p =
      let asked = key_of (prop (txt "toolName") call) in
      rw (lookup-over change asked opts.tools) (
        found-Replays host opts.name asked change (lookup asked opts.tools) _ _
          (λ def. bind-Replays _ _ _ _ (run-Replays host _ _ _) (λ output. lift-Replays _)))

  run_tools-Replays :
      (opts : AgentOpts W) (i : ℕ) (calls : List Value) (p : Progress)
      → Replays (run_tools host opts i calls p) (run_tools host (swapped opts) i calls p)
  unfolding run_tools
  run_tools-Replays opts i [] p = lift-Replays (returned p)
  run_tools-Replays opts i (call ∷ calls) p =
      bind-Replays _ _ _ _ (run_tool-Replays opts i call p) (run_tools-Replays opts i calls)

  ask-Replays :
      (opts : AgentOpts W) (i : ℕ) (p : Progress)
      → Replays (ask host opts i p) (ask host (swapped opts) i p)
  unfolding ask prepare
  ask-Replays opts i p = bind-Replays _ _ _ _ (lift-Replays _) (λ messages.
      bind-Replays _ _ _ _ (run-Replays host _ _ _) (λ memo.
        bind-Replays {A = Unit {0}} _ _ _ _ (lift-Replays (assert_llm_memo host opts.name memo))
          (λ fine.
            lift-Replays (returned (memo, add_memo memo (record p { messages = messages }))))))

  act-Replays :
      (opts : AgentOpts W) (i : ℕ) (memo : Value) (calls : List Value) (p : Progress)
      (again again' : Progress → Exec W AgentResult)
      → ((q : Progress) → Replays (again q) (again' q))
      → Replays (act host opts i memo calls p again) (act host (swapped opts) i memo calls p again')
  act-Replays opts i memo [] p again again' rest = lift-Replays _
  act-Replays opts i memo (call ∷ calls) p again again' rest =
      bind-Replays _ _ _ _ (run_tools-Replays opts i (call ∷ calls) p) rest

  iterate-Replays :
      (opts : AgentOpts W) (max left i : ℕ) (p : Progress)
      → Replays (iterate host opts max left i p) (iterate host (swapped opts) max left i p)
  unfolding iterate
  iterate-Replays opts max zero i p = lift-Replays _
  iterate-Replays opts max (suc left) i p =
      bind-Replays _ _ _ _ (ask-Replays opts i p)
        (λ asked. act-Replays opts i _ _ _ _ _ (iterate-Replays opts max left (i + 1)))

  claim-swapped :
      (agent : Agent W) (s : State W) → claim host (swapped_agent agent) s ≡ claim host agent s
  unfolding claim
  claim-swapped agent s = refl

  -- An agent returns a result only where every model call and every tool call that it needs is
  -- memoised: then the world is left as it was, the agent has its name, and the same call of `run` with any other model, redact
  -- hook, onResponse hook and tools of the same names returns the same result from the same state.
  pub run_agent-Replays :
      (agent : Agent W) (input : Text) (r : AgentResult) (s s' : State W)
      → run_agent host agent input s ≡ (returned r, s')
      → (run_agent host (swapped_agent agent) input s ≡ (returned r, s'))
        × (s'.world ≡ s.world)
        × (s'.claims ≡ (claimed agent s).claims)
  unfolding run_agent
  run_agent-Replays agent input r s s' e =
      let (u, t, before, after) = bind-returned (claim host agent) _ r s s' e in
      let (same, world, claims) =
        iterate-Replays agent.opts agent.max_iterations agent.max_iterations 0 (beginning input) r t
          s' after in
      (
        rw (claim-swapped agent s, before) same,
        world ∙ ap (λ t. t.world) (claim-returned host agent u s t before),
        claims ∙ ap (λ t. t.claims) (claim-returned host agent u s t before),
      )
