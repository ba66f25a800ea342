-- ===== src/Agent/Durably/Calls.antt =====
-- The functions of an agent's steps (sdk-ts/src/agent.ts) touch only the world of the application.
use triggerlink.Prelude.{ℕ, ◌≡◌, Option, none, some, List, Text, txt, lookup, Bool-cases, inl, inr}
use triggerlink.Value.{Value, prop}
use triggerlink.Execx.{Host}
use triggerlink.Effects.{Outcome, returned, threw, Exec, lift, pure}
use triggerlink.Durable.Effect.{IsPlain, IsEffect, lift-IsEffect, pure-IsEffect, bind-IsEffect}
use triggerlink.Agent.Options.{
  AgentTool, RedactCtx, PrepareMessagesCtx, AgentIterationResult, LlmResponse, AgentOpts, llm,
}
use triggerlink.Agent.Memo.{Progress, memo_object, is_llm_memo, assert_llm_memo, agent_error}
use triggerlink.Agent.Loop.{
  redacted, respond, check_prepared, accepted, prepare, llm_call, tool_call, found_tool,
}
use triggerlink.Agent.Durably.{IsPlainRedact, IsPlainPrepare, IsEffectHook, AreEffects}

pub redacted-IsPlain :
    (redact : Option (Value → RedactCtx → Outcome Value)) (v : Value) (ctx : RedactCtx)
    → IsPlainRedact redact
    → IsPlain (redacted redact v ctx)
redacted-IsPlain none v ctx plain = tt
redacted-IsPlain (some redact) v ctx plain = plain v ctx

module _ (host : Host) where
  pub assert_llm_memo-IsPlain :
      (name : Text) (memo : Value) → IsPlain (assert_llm_memo host name memo)
  unfolding assert_llm_memo agent_error
  assert_llm_memo-IsPlain name memo = elim (Bool-cases (is_llm_memo memo)) [
    | inl e ↦ rw e tt
    | inr e ↦ rw e tt
  ]

  accepted-IsPlain :
      (name : Text) (messages : Option (List Value)) (why : Option Text)
      → IsPlain (accepted host name messages why)
  accepted-IsPlain name none why = tt
  accepted-IsPlain name (some messages) none = tt
  accepted-IsPlain name (some messages) (some why) = tt

  check_prepared-IsPlain :
      (name : Text) (o : Outcome Value) → IsPlain o → IsPlain (check_prepared host name o)
  check_prepared-IsPlain name (returned v) plain = accepted-IsPlain name _ _
  check_prepared-IsPlain name (threw e) plain = plain

  found_tool-IsPlain :
      {W : Type 0} (name asked : Text) (def : Option (AgentTool W))
      → IsPlain (found_tool host name asked def)
  found_tool-IsPlain name asked none = tt
  found_tool-IsPlain name asked (some def) = tt

module _ (host : Host) {W : Type 0} (opts : AgentOpts W) (effects : AreEffects opts) where
  prepared-IsPlain :
      (i : ℕ) (p : Progress) (hook : Option (PrepareMessagesCtx → Outcome Value))
      → IsPlainPrepare hook
      → IsPlain (elim hook [
        | none ↦ returned p.messages
        | some f ↦
            check_prepared host opts.name (
              f (record {
                messages = p.messages;
                iteration = i;
                previous_usage = p.previous_usage;
              }))
      ])
  prepared-IsPlain i p none plain = tt
  prepared-IsPlain i p (some f) plain = check_prepared-IsPlain host opts.name _ (plain _)

  pub prepare-IsPlain : (i : ℕ) (p : Progress) → IsPlain (prepare host opts i p)
  unfolding prepare
  prepare-IsPlain i p = prepared-IsPlain i p opts.prepare_messages effects.prepare_messages

  respond-IsEffect :
      (hook : Option (AgentIterationResult → ℕ → Exec W (Unit {0}))) (out : Value) (i : ℕ)
      → IsEffectHook hook
      → IsEffect (respond host hook out i)
  respond-IsEffect none out i effect = pure-IsEffect tt
  respond-IsEffect (some hook) out i effect = effect _ i

  pub llm_call-IsEffect : (i : ℕ) (messages : List Value) → IsEffect (llm_call host opts i messages)
  unfolding llm_call
  llm_call-IsEffect i messages =
      bind-IsEffect {A = LlmResponse} {B = Value}
        (opts.generate (record {
          system = opts.system;
          messages = messages;
          max_output_tokens = opts.max_output_tokens;
        }))
        _ (effects.generate _)
        (λ res.
          bind-IsEffect {B = Value}
            (lift (
              redacted opts.redact (memo_object res)
                (record { kind = llm; iteration = i; tool_name = none })))
            _ (lift-IsEffect _ (redacted-IsPlain opts.redact _ _ effects.redact))
            (λ out.
              bind-IsEffect {B = Value} (lift (assert_llm_memo host opts.name out)) _
                (lift-IsEffect _ (assert_llm_memo-IsPlain host opts.name out))
                (λ _.
                  bind-IsEffect {B = Value} (respond host opts.on_response out i) (λ _. pure out)
                    (respond-IsEffect opts.on_response out i effects.on_response)
                    (λ _. pure-IsEffect out))))

  pub tool_call-IsEffect :
      (i : ℕ) (name : Text) (def : AgentTool W) (call : Value)
      → lookup name opts.tools ≡ some def
      → IsEffect (tool_call host opts i def call)
  unfolding tool_call
  tool_call-IsEffect i name def call found =
      bind-IsEffect {B = Value} (lift (def.parse (prop (txt "input") call))) _
        (lift-IsEffect _ (effects.parse name def found _))
        (λ input.
          bind-IsEffect {B = Value} (def.handler input) _ (effects.handler name def found input)
            (λ out. lift-IsEffect _ (redacted-IsPlain opts.redact _ _ effects.redact)))
