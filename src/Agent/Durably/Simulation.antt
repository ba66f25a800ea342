-- ===== src/Agent/Durably/Simulation.antt =====
-- The loop of an agent (sdk-ts/src/agent.ts) over the steps, against the workflow of its calls.
use triggerlink.Prelude.{
  ℕ, zero, suc, ◌+◌, ◌≡◌, refl, Option, none, some, List, [], ◌∷◌, Text, txt, lookup,
}
use triggerlink.Value.{Value, prop}
use triggerlink.Execx.{Host}
use triggerlink.Effects.{Exec, ◌>>=◌, lift, pure}
use triggerlink.Step.{run, err_message, err_stack}
use triggerlink.Durable.{Flow, step, handler_of}
use triggerlink.Serve.{opcode_of}
use triggerlink.Durable.Effect.{attempt}
use triggerlink.Durable.Simulation.{
  Simulates, or_fail, pure-Simulates, lift-Simulates, run-Simulates, bind-Simulates,
}
use triggerlink.Agent.Options.{AgentTool, AgentOpts}
use triggerlink.Agent.Memo.{
  AgentResult, Progress, add_record, add_memo, list_of, key_of, assert_llm_memo,
}
use triggerlink.Agent.Loop.{
  prepare, llm_call, tool_call, found_tool, run_tool, run_tools, ask, act, iterate, exceeded,
  step_id, record_of, result_of,
}
use triggerlink.Agent.Durably.{AreEffects, tools_flow, act_flow, iterations_flow}
use triggerlink.Agent.Durably.Calls.{
  assert_llm_memo-IsPlain, prepare-IsPlain, llm_call-IsEffect, tool_call-IsEffect,
}

module _ (host : Host) {W : Type 0} (opts : AgentOpts W) (effects : AreEffects opts) where
  found_tool-Simulates :
      (i : ℕ) (call : Value) (p : Progress) (asked : Text) (found : Option (AgentTool W))
      → lookup asked opts.tools ≡ found
      → Simulates host {A = Progress}
          (lift (found_tool host opts.name asked found) >>= λ def.
            run host (step_id opts.name (some asked)) (tool_call host opts i def call) >>= λ output.
            pure (add_record (record_of call output) p))
          (λ rest. or_fail host (found_tool host opts.name asked found) (λ def.
            step
              (step_id opts.name (some asked))
              (attempt host (tool_call host opts i def call))
              (λ output. rest (add_record (record_of call output) p))))
  unfolding handler_of opcode_of err_message err_stack
  found_tool-Simulates i call p asked none e = λ claims after rest same s own. refl
  found_tool-Simulates i call p asked (some def) e =
      bind-Simulates host
        (run host (step_id opts.name (some asked)) (tool_call host opts i def call))
        (λ output. pure (add_record (record_of call output) p))
        (step (step_id opts.name (some asked)) (attempt host (tool_call host opts i def call)))
        (λ output rest. rest (add_record (record_of call output) p))
        (run-Simulates host _ _ (tool_call-IsEffect host opts effects i asked def call e))
        (λ output. pure-Simulates host _)

  run_tools-Simulates :
      (i : ℕ) (calls : List Value) (p : Progress)
      → Simulates host (run_tools host opts i calls p) (tools_flow host opts i calls p)
  unfolding run_tool run_tools tools_flow
  run_tools-Simulates i [] p = pure-Simulates host p
  run_tools-Simulates i (call ∷ calls) p =
      let asked = key_of (prop (txt "toolName") call) in
      bind-Simulates host (run_tool host opts i call p) (run_tools host opts i calls)
        (λ rest. or_fail host (found_tool host opts.name asked (lookup asked opts.tools)) (λ def.
          step (step_id opts.name (some asked)) (attempt host (tool_call host opts i def call))
            (λ output. rest (add_record (record_of call output) p))))
        (tools_flow host opts i calls)
        (found_tool-Simulates i call p asked (lookup asked opts.tools) refl)
        (run_tools-Simulates i calls)

  ask-Simulates :
      (i : ℕ) (p : Progress)
      → Simulates host (ask host opts i p) (λ rest.
        or_fail host (prepare host opts i p) (λ messages.
          step (step_id opts.name none) (attempt host (llm_call host opts i messages)) (λ memo.
            or_fail host
              (assert_llm_memo host opts.name memo)
              (λ _. rest (memo, add_memo memo (record p { messages = messages }))))))
  unfolding ask
  ask-Simulates i p =
      bind-Simulates host {B = Value × Progress} (lift (prepare host opts i p)) _
        (or_fail host (prepare host opts i p)) _
        (lift-Simulates host _ (prepare-IsPlain host opts effects i p))
        (λ messages.
          bind-Simulates host {B = Value × Progress}
            (run host (step_id opts.name none) (llm_call host opts i messages)) _
            (step (step_id opts.name none) (attempt host (llm_call host opts i messages))) _
            (run-Simulates host _ _ (llm_call-IsEffect host opts effects i messages))
            (λ memo.
              bind-Simulates host {B = Value × Progress}
                (lift (assert_llm_memo host opts.name memo)) _
                (or_fail host (assert_llm_memo host opts.name memo)) _
                (lift-Simulates host _ (assert_llm_memo-IsPlain host opts.name memo))
                (λ _.
                  pure-Simulates host (memo, add_memo memo (record p { messages = messages })))))

  act-Simulates :
      (i : ℕ) (memo : Value) (calls : List Value) (p : Progress)
      (again : Progress → Exec W AgentResult) (later : Progress → (AgentResult → Flow W) → Flow W)
      → ((q : Progress) → Simulates host (again q) (later q))
      → Simulates host
          (act host opts i memo calls p again)
          (λ rest. act_flow host opts i memo calls p rest (λ q. later q rest))
  act-Simulates i memo [] p again later simulates = pure-Simulates host (result_of memo (i + 1) p)
  act-Simulates i memo (call ∷ calls) p again later simulates =
      bind-Simulates host (run_tools host opts i (call ∷ calls) p) again
        (tools_flow host opts i (call ∷ calls) p) later (run_tools-Simulates i (call ∷ calls) p)
        simulates

  pub iterate-Simulates :
      (max left i : ℕ) (p : Progress)
      → Simulates host (iterate host opts max left i p) (iterations_flow host opts max left i p)
  unfolding iterate iterations_flow exceeded
  iterate-Simulates max zero i p = lift-Simulates host (exceeded host opts.name max) tt
  iterate-Simulates max (suc left) i p =
      bind-Simulates host (ask host opts i p)
        (λ asked.
          act host opts i asked.0 (list_of (prop (txt "toolCalls") asked.0)) asked.1
            (iterate host opts max left (i + 1)))
        (λ rest. or_fail host (prepare host opts i p) (λ messages.
          step (step_id opts.name none) (attempt host (llm_call host opts i messages)) (λ memo.
            or_fail host (assert_llm_memo host opts.name memo)
              (λ _. rest (memo, add_memo memo (record p { messages = messages }))))))
        (λ asked rest.
          act_flow host opts i asked.0 (list_of (prop (txt "toolCalls") asked.0)) asked.1 rest
            (λ q. iterations_flow host opts max left (i + 1) q rest))
        (ask-Simulates i p)
        (λ asked.
          act-Simulates i asked.0 (list_of (prop (txt "toolCalls") asked.0)) asked.1
            (iterate host opts max left (i + 1)) (iterations_flow host opts max left (i + 1))
            (iterate-Simulates max left (i + 1)))
