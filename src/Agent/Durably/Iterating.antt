-- ===== src/Agent/Durably/Iterating.antt =====
-- The iterations of an agent's workflow end as its conversation does (sdk-ts/src/agent.ts).
use triggerlink.Prelude.{ℕ, zero, suc, ◌+◌, ◌≡◌, refl, subst, arith, none, List, [], ◌∷◌}
use triggerlink.Value.{Value}
use triggerlink.Execx.{Host}
use triggerlink.Effects.{returned, Exec, lift, pure}
use triggerlink.Durable.{Platform, Flow, step}
use triggerlink.Durable.Effect.{attempt, outside}
use triggerlink.Durable.Simulation.{or_fail}
use triggerlink.Durable.Completing.{Completes}
use triggerlink.Agent.Options.{AgentOpts, LlmResponse, llm}
use triggerlink.Agent.Memo.{AgentResult, Progress, add_memo, memo_object, assert_llm_memo}
use triggerlink.Agent.Loop.{redacted, respond, prepare, llm_call, exceeded, step_id}
use triggerlink.Agent.Dialogue.{calls_of}
use triggerlink.Agent.Returning.{Ensures, lift-Ensures, pure-Ensures, any-Ensures, bind-Ensures}
use triggerlink.Agent.Durably.{iterations_flow, act_flow}
use triggerlink.Agent.Durably.Conversation.{Succeeds, at_last, again, Converses, answers, goes_on}
use triggerlink.Agent.Durably.Ending.{
  step-Succeeds, step-Splits, or_fail-returned, tools_flow-Uses, tools_flow-UsesThen,
}

Succeeds-Ensures :
    {W : Type 0} {P : Value → Type 0} {m : Exec W Value} {w u : W} {n : ℕ} {v : Value}
    → Ensures P m
    → Succeeds m w n v u
    → P v
Succeeds-Ensures ensures (at_last {w = w} {v = v} {t = t} e) = ensures v (outside w) t e
Succeeds-Ensures ensures (again e more) = Succeeds-Ensures ensures more

module _ (host : Host) {W : Type 0} (opts : AgentOpts W) where
  abbrev IsFine : Value → Type 0
  IsFine memo = assert_llm_memo host opts.name memo ≡ returned tt

  llm_call-Ensures :
      (i : ℕ) (messages : List Value) → Ensures IsFine (llm_call host opts i messages)
  unfolding llm_call
  llm_call-Ensures i messages =
      bind-Ensures {A = LlmResponse} _ IsFine
        (opts.generate (record {
          system = opts.system;
          messages = messages;
          max_output_tokens = opts.max_output_tokens;
        }))
        _ (any-Ensures _)
        (λ res any.
          bind-Ensures _ IsFine
            (lift (
              redacted opts.redact (memo_object res)
                (record { kind = llm; iteration = i; tool_name = none })))
            _ (any-Ensures _)
            (λ out any'.
              bind-Ensures (λ _. IsFine out) IsFine (lift (assert_llm_memo host opts.name out)) _
                (lift-Ensures _ _ (λ a e. e))
                (λ _ fine.
                  bind-Ensures _ IsFine (respond host opts.on_response out i) (λ _. pure out)
                    (any-Ensures _) (λ _ any''. pure-Ensures IsFine out fine))))

  module _ (platform : Platform W) (max : ℕ) (rest : AgentResult → Flow W) where
    -- the workflow after a memo
    abbrev noted : (left i : ℕ) → Progress → List Value → Value → Flow W
    noted left i p messages memo = or_fail host (assert_llm_memo host opts.name memo) (λ _.
        act_flow host opts i memo (calls_of memo) (add_memo memo (record p { messages = messages }))
          rest (λ q. iterations_flow host opts max left (i + 1) q rest))

    pub iterations_flow-Converses :
        {left i : ℕ} {p : Progress} {w u z : W} {n k : ℕ} {result : AgentResult} {r : Value}
        → Converses host opts left i p w n result u
        → Completes host platform (rest result) u k r z
        → Completes host platform (iterations_flow host opts max left i p rest) w (n + k) r z
    unfolding iterations_flow
    iterations_flow-Converses (answers prepared succeeds done) later =
        let fine = Succeeds-Ensures (llm_call-Ensures _ _) succeeds in
        rw prepared (step-Succeeds host platform succeeds (rw (fine, done) later))
    iterations_flow-Converses {p = p} {w = w} {z = z} {k = k'} {r = r}
          (goes_on {left = left} {i = i} {n = n} {k = k} {j = j} {messages = messages} prepared
            succeeds asked uses more)
          later =
        let fine = Succeeds-Ensures (llm_call-Ensures _ _) succeeds in
        let used =
          tools_flow-Uses host platform opts
            (λ q. iterations_flow host opts max left (i + 1) q rest) uses
            (iterations_flow-Converses more later) in
        let regroup : n + (k + (j + k')) ≡ n + (k + j) + k' = omega arith in
        let id = step_id opts.name none in
        let called = llm_call host opts i messages in
        let next = noted left i p messages in
        rw prepared (
          subst (λ x. Completes host platform (step id (attempt host called) next) w x r z) regroup
            (step-Succeeds host platform {id = id} {m = called} {rest = next} succeeds
              (rw (fine, asked) used)))

    -- The conversation comes to a result, and what follows it ends.
    abbrev pub ConversesThen : (left i : ℕ) → Progress → W → ℕ → Value → W → Type 0
    ConversesThen left i p w total r z =
        (n k : ℕ) × (result : AgentResult) × (u : W) × (n + k ≡ total)
        × Converses host opts left i p w n result u
        × Completes host platform (rest result) u k r z

    act_flow-ConversesThen :
        (left i : ℕ) (p : Progress) (messages : List Value) (memo : Value) (calls : List Value)
        {w w' z : W} {n total : ℕ} {r : Value}
        → prepare host opts i p ≡ returned messages
        → Succeeds (llm_call host opts i messages) w n memo w'
        → calls_of memo ≡ calls
        → ((q : Progress) (w : W) (total : ℕ)
            → Completes host platform
                (iterations_flow host opts max left (i + 1) q rest)
                w
                total
                r
                z
            → ConversesThen left (i + 1) q w total r z)
        → Completes host platform
            (act_flow host opts i memo calls
              (add_memo memo (record p { messages = messages }))
              rest
              (λ q. iterations_flow host opts max left (i + 1) q rest))
            w'
            total
            r
            z
        → ConversesThen (suc left) i p w (n + total) r z
    act_flow-ConversesThen left i p messages memo [] {total = total} prepared succeeds asked known
          ends =
        (_, total, _, _, refl, answers prepared succeeds asked, ends)
    act_flow-ConversesThen left i p messages memo (call ∷ calls) {n = n} prepared succeeds asked
          known ends =
        let (k, j, q, w'', sum, uses, later) =
          tools_flow-UsesThen host platform opts i (call ∷ calls) _ _ ends in
        let (j', k', result, u, sum', more, last) = known q w'' _ later in
        (
          n + (k + j'),
          k',
          result,
          u,
          omega (arith, sum, sum'),
          goes_on prepared succeeds asked uses more,
          last,
        )

    pub iterations_flow-ConversesThen :
        (left i : ℕ) (p : Progress) {w z : W} {total : ℕ} {r : Value}
        → Completes host platform (iterations_flow host opts max left i p rest) w total r z
        → ConversesThen left i p w total r z
    unfolding iterations_flow exceeded
    iterations_flow-ConversesThen zero i p ends = elim ends [ ]
    iterations_flow-ConversesThen (suc left) i p {w = w} {z = z} {r = r} ends =
        let (messages, prepared, ends') =
          or_fail-returned host platform (prepare host opts i p) _ ends in
        let (n, k, memo, w', sum, succeeds, later) = step-Splits host platform refl ends' in
        let (_, fine, acts) =
          or_fail-returned host platform (assert_llm_memo host opts.name memo) _ later in
        subst (λ x. ConversesThen (suc left) i p w x r z) sum
          (act_flow-ConversesThen left i p messages memo (calls_of memo) prepared succeeds refl
            (λ q w total. iterations_flow-ConversesThen left (i + 1) q) acts)
