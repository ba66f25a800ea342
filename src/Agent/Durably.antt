-- ===== src/Agent/Durably.antt =====
-- `run` of an agent (sdk-ts/src/agent.ts) as a workflow of durable steps: a step for each call of the model and
-- for each call of a tool.
pub mod Calls
pub mod Simulation
pub mod Execution
pub mod Callbacks
pub mod Plan
pub mod Limited
pub mod Conversation
pub mod Ending
pub mod Iterating
use triggerlink.Prelude.{
  ℕ, zero, suc, ◌+◌, ◌≡◌, Option, none, some, List, [], ◌∷◌, Text, txt, lookup,
}
use triggerlink.Value.{Value, prop}
use triggerlink.Execx.{Host}
use triggerlink.Effects.{Outcome, returned, threw, Exec}
use triggerlink.Step.{err_message, err_stack}
use triggerlink.Durable.{Flow, fail, step}
use triggerlink.Durable.Simulation.{or_fail}
use triggerlink.Durable.Effect.{IsPlain, IsEffect, attempt}
use triggerlink.Agent.Options.{
  AgentTool, RedactCtx, GenerateArgs, PrepareMessagesCtx, AgentIterationResult, AgentOpts, Agent,
}
use triggerlink.Agent.Memo.{
  AgentResult, Progress, add_record, add_memo, list_of, key_of, assert_llm_memo,
}
use triggerlink.Agent.Loop.{
  prepare, llm_call, tool_call, found_tool, exceeded, step_id, record_of, result_of, beginning,
}

abbrev pub IsPlainRedact : Option (Value → RedactCtx → Outcome Value) → Type 0
IsPlainRedact none = Unit
IsPlainRedact (some redact) = (v : Value) (ctx : RedactCtx) → IsPlain (redact v ctx)

abbrev pub IsPlainPrepare : Option (PrepareMessagesCtx → Outcome Value) → Type 0
IsPlainPrepare none = Unit
IsPlainPrepare (some hook) = (ctx : PrepareMessagesCtx) → IsPlain (hook ctx)

module _ {W : Type 0} where
  abbrev pub IsEffectHook : Option (AgentIterationResult → ℕ → Exec W (Unit {0})) → Type 0
  IsEffectHook none = Unit
  IsEffectHook (some hook) = (result : AgentIterationResult) (i : ℕ) → IsEffect (hook result i)

  -- The model, the tools and the hooks of an agent do not call the SDK: they touch the world of the
  -- application only, and what they throw is no interrupt of a step.
  pub record AreEffects (opts : AgentOpts W) : Type 0 where
    pub generate : (args : GenerateArgs) → IsEffect (opts.generate args)
    pub on_response : IsEffectHook opts.on_response
    pub redact : IsPlainRedact opts.redact
    pub prepare_messages : IsPlainPrepare opts.prepare_messages
    pub parse :
        (name : Text) (def : AgentTool W)
        → lookup name opts.tools ≡ some def
        → (v : Value) → IsPlain (def.parse v)
    pub handler :
        (name : Text) (def : AgentTool W)
        → lookup name opts.tools ≡ some def
        → (v : Value) → IsEffect (def.handler v)

module _ (host : Host) {W : Type 0} (opts : AgentOpts W) where
  unfoldable pub tools_flow : ℕ → List Value → Progress → (Progress → Flow W) → Flow W
  tools_flow i [] p rest = rest p
  tools_flow i (call ∷ calls) p rest =
      let asked = key_of (prop (txt "toolName") call) in
      or_fail host (found_tool host opts.name asked (lookup asked opts.tools)) (λ def.
        step (step_id opts.name (some asked)) (attempt host (tool_call host opts i def call))
          (λ output. tools_flow i calls (add_record (record_of call output) p) rest))

  abbrev pub act_flow :
      ℕ → Value → List Value → Progress → (AgentResult → Flow W) → (Progress → Flow W) → Flow W
  act_flow i memo [] p rest again = rest (result_of memo (i + 1) p)
  act_flow i memo (call ∷ calls) p rest again = tools_flow i (call ∷ calls) p again

  unfoldable pub iterations_flow : (max left i : ℕ) → Progress → (AgentResult → Flow W) → Flow W
  iterations_flow max zero i p rest = or_fail host (exceeded host opts.name max) rest
  iterations_flow max (suc left) i p rest = or_fail host (prepare host opts i p) (λ messages.
      step (step_id opts.name none) (attempt host (llm_call host opts i messages)) (λ memo.
        or_fail host (assert_llm_memo host opts.name memo) (λ _.
          let q = add_memo memo (record p { messages = messages }) in
          act_flow i memo (list_of (prop (txt "toolCalls") memo)) q rest
            (λ p'. iterations_flow max left (i + 1) p' rest))))

module _ (host : Host) {W : Type 0} where
  -- An agent's run, before the rest of a workflow.
  abbrev pub agent_flow : Agent W → Text → (AgentResult → Flow W) → Flow W
  agent_flow agent input rest =
      iterations_flow host agent.opts agent.max_iterations agent.max_iterations 0 (beginning input)
        rest
