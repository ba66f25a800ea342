-- ===== src/Agent/Durably/Execution.antt =====
-- A durable run of a function whose handler runs an agent (sdk-ts/src/agent.ts).
use triggerlink.Prelude.{
  ℕ, ◌+◌, ◌<◌, ◌≡◌, ◌↔◌, refl, sym, ◌∙◌, ap, subst, arith, some, [], Text, inl, lookup,
}
use triggerlink.Value.{Value}
use triggerlink.Execx.{Host}
use triggerlink.Execx.Keys.{CollisionFree}
use triggerlink.Effects.{Exec, ◌>>=◌, then_do}
use triggerlink.Function.{HandlerContext, TriggerFunction}
use triggerlink.Durable.{Platform, Flow, finish, handler_of, direct, drive}
use triggerlink.Durable.Completing.{
  Completes, finished, CompletesWithin, direct-CompletesWithin_iff,
}
use triggerlink.Durable.Claims.{handler_of-with_claims}
use triggerlink.Durable.Simulation.{seen}
use triggerlink.Durable.Refinement.{RunsAs, drive-RunsAs}
use triggerlink.Durable.Replay.{at}
use triggerlink.Agent.Options.{Agent}
use triggerlink.Agent.Memo.{AgentResult}
use triggerlink.Agent.Loop.{iterate, beginning, run_agent}
use triggerlink.Agent.Replay.{claimed}
use triggerlink.Agent.Completion.{claim-free}
use triggerlink.Agent.Durably.{AreEffects, agent_flow}
use triggerlink.Agent.Durably.Conversation.{Converses}
use triggerlink.Agent.Durably.Iterating.{iterations_flow-Converses, iterations_flow-ConversesThen}
use triggerlink.Agent.Durably.Simulation.{iterate-Simulates}

module _ {W : Type 0} (host : Host) (agent : Agent W) (input : Text)
    (rest : AgentResult → Flow W) where
  -- `agent.run(step, input)`, and what a handler does with the result
  abbrev pub agent_handler : Exec W Value
  agent_handler = run_agent host agent input >>= λ result. handler_of host (rest result)

  pub run_agent-RunsAs :
      (f : Text)
      → AreEffects agent.opts
      → RunsAs host f agent_handler (agent_flow host agent input rest)
  unfolding run_agent lookup
  run_agent-RunsAs f effects steps w =
      let s = at host f steps [] w in
      let flow = agent_flow host agent input rest in
      let loop =
        iterate host agent.opts agent.max_iterations agent.max_iterations 0 (beginning input) in
      ap (λ r. seen (then_do (then_do r (λ _. loop)) (λ result. handler_of host (rest result))))
        (claim-free host agent s (inl refl))
      ∙ iterate-Simulates host agent.opts effects agent.max_iterations agent.max_iterations 0
          (beginning input) (claimed agent s).claims _ rest (λ result t own. refl) (claimed agent s)
          refl
      ∙ ap seen (handler_of-with_claims host (claimed agent s).claims flow s)

-- The agent converses to a result of this value and to this world, in fewer calls than `fuel`.
abbrev pub ConversesWithin :
    {W : Type 0} → Host → Agent W → Text → (AgentResult → Value) → ℕ → W → Value → W → Type 0
ConversesWithin host agent input show fuel w v u =
    (n : ℕ) × (result : AgentResult) × (n < fuel)
    × (show result ≡ v)
    × Converses host agent.opts agent.max_iterations 0 (beginning input) w n result u

module _ {W : Type 0} (host : Host) (platform : Platform W) where
  finish-Completes :
      (v : Value) {w u : W} {n : ℕ} {r : Value}
      → Completes host platform (finish v) w n r u
      → (n ≡ 1) × (v ≡ r) × (w ≡ u)
  finish-Completes v finished = (refl, refl, refl)

  module _ (agent : Agent W) (input : Text) (show : AgentResult → Value) (fuel : ℕ) (w : W)
      (v : Value) (u : W) where
    abbrev whole : Flow W
    whole = agent_flow host agent input (λ result. finish (show result))

    abbrev Ends : Type 0
    Ends = CompletesWithin host platform fuel whole w v u

    within : Ends → ConversesWithin host agent input show fuel w v u
    within (total, less, ends) =
        let (n, k, result, u', sum, converses, last) =
          iterations_flow-ConversesThen host agent.opts platform agent.max_iterations
            (λ result. finish (show result)) agent.max_iterations 0 (beginning input) ends in
        let (one, shown, there) = finish-Completes (show result) last in
        (
          n,
          result,
          omega (arith, sum, one, less),
          shown,
          subst
              (λ x. Converses host agent.opts agent.max_iterations 0 (beginning input) w n result x)
              there converses,
        )

    completes : ConversesWithin host agent input show fuel w v u → Ends
    completes (n, result, less, shown, converses) = (
      n + 1,
      omega (arith, less),
      subst (λ x. Completes host platform whole w (n + 1) x u) shown
          (iterations_flow-Converses host agent.opts platform agent.max_iterations
            (λ result. finish (show result)) converses finished),
    )

-- A durable run of a function whose handler runs an agent, and then the rest of a workflow, ends with the
-- result and in the world of the direct execution of the agent's calls, whatever the platform answers: over
-- all the callbacks each call of the model and of a tool is attempted until it succeeds and never again, and
-- where the loop throws an error outside its steps, no callback ends the run. The model, the tools and the hooks
-- touch only the world and throw no interrupt, and SHA-256 has no collision among the function's keys.
pub drive-run_agent-eq-direct :
    {W : Type 0} (host : Host) (platform : Platform W) (f : Text) (tf : TriggerFunction W)
    (context : HandlerContext) (agent : Agent W) (input : Text) (rest : AgentResult → Flow W)
    (fuel : ℕ) (w : W)
    → tf.handler context ≡ agent_handler host agent input rest
    → AreEffects agent.opts
    → CollisionFree host f
    → drive platform fuel tf f context [] w
      ≡ direct host platform fuel (agent_flow host agent input rest) w
drive-run_agent-eq-direct host platform f tf context agent input rest fuel w runs effects free =
    drive-RunsAs host platform f tf context _ fuel w
      (λ steps w.
        ap (λ h. seen (h (at host f steps [] w))) runs
        ∙ run_agent-RunsAs host agent input rest f effects steps w)
      free

-- Such a function, with a handler that makes a value of the agent's result, comes to a value and a world
-- within some number of callbacks exactly if the agent converses to a result of that value and to that world
-- in fewer calls of the model and the tools, the failed ones counted: the model is called until it answers
-- with the messages so far, then each tool that it asks for, in order, until it succeeds, for at most
-- `max_iterations` rounds. The model, the tools and the hooks touch only the world and throw no interrupt,
-- SHA-256 has no collision among the function's keys, and retries are not limited.
pub drive-Converses_iff :
    {W : Type 0} (host : Host) (platform : Platform W) (f : Text) (tf : TriggerFunction W)
    (context : HandlerContext) (agent : Agent W) (input : Text) (show : AgentResult → Value)
    (fuel : ℕ) (w : W) (v : Value) (u : W)
    → tf.handler context ≡ agent_handler host agent input (λ result. finish (show result))
    → AreEffects agent.opts
    → CollisionFree host f
    → (drive platform fuel tf f context [] w ≡ some (v, u))
      ↔ ConversesWithin host agent input show fuel w v u
drive-Converses_iff host platform f tf context agent input show fuel w v u runs effects free =
    let same =
      drive-run_agent-eq-direct host platform f tf context agent input _ fuel w runs effects free in
    let (there, back) =
      direct-CompletesWithin_iff host platform
        (agent_flow host agent input (λ result. finish (show result))) fuel w v u in
    (
      λ e. within host platform agent input show fuel w v u (there (sym same ∙ e)),
      λ converses. same ∙ back (completes host platform agent input show fuel w v u converses),
    )
