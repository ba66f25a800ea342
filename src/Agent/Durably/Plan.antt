-- ===== src/Agent/Durably/Plan.antt =====
-- Handlers that run agents (sdk-ts/src/agent.ts) among their other steps (sdk-ts/src/step.ts), any number of them
-- and as often as they like.
use triggerlink.Prelude.{
  ℕ, ◌≡◌, refl, sym, ◌∙◌, ap, subst, ◌⊎◌, none, some, Option, List, [], Text, lookup, insert,
}
use triggerlink.Value.{Value}
use triggerlink.Execx.{Host, error}
use triggerlink.Execx.Keys.{CollisionFree}
use triggerlink.Effects.{returned, threw, State, Exec, then_do}
use triggerlink.Step.{run}
use triggerlink.Function.{HandlerContext, TriggerFunction}
use triggerlink.Durable.{
  Platform, Attempt, Question, Flow, handler_of, effect_of, ask, direct, drive,
}
use triggerlink.Durable
use triggerlink.Durable.Claims.{handler_of-with_claims, run-claims, ask-claims}
use triggerlink.Durable.Simulation.{seen, seen-then_do}
use triggerlink.Durable.Refinement.{RunsAs, drive-RunsAs}
use triggerlink.Durable.Replay.{at}
use triggerlink.Agent.Options.{Agent}
use triggerlink.Agent.Memo.{AgentResult}
use triggerlink.Agent.Loop.{iterate, beginning, run_agent}
use triggerlink.Agent.Replay.{claimed}
use triggerlink.Agent.Completion.{claim-free}
use triggerlink.Agent.Durably.{AreEffects, agent_flow}
use triggerlink.Agent.Durably.Simulation.{iterate-Simulates}

-- A handler whose effects are all in its steps and in its agents.
pub data Plan (W : Type 0) : Type 0 where
  finish : Value → Plan W
  fail : (message : Text) (stack : Option Text) → Plan W
  step : Text → (W → Attempt × W) → (Value → Plan W) → Plan W
  wait : Text → Question W → (Value → Plan W) → Plan W
  converse : Agent W → (input : Text) → (AgentResult → Plan W) → Plan W

module _ {W : Type 0} (host : Host) where
  -- the handler, as the SDK runs it
  unfoldable pub plan_handler : Plan W → Exec W Value
  plan_handler (finish v) s = (returned v, s)
  plan_handler (fail message stack) s = (threw (error message stack), s)
  plan_handler (step id fn rest) s =
      then_do (run host id (effect_of fn) s) (λ v. plan_handler (rest v))
  plan_handler (wait id question rest) s =
      then_do (ask host id question s) (λ v. plan_handler (rest v))
  plan_handler (converse agent input rest) s =
      then_do (run_agent host agent input s) (λ result. plan_handler (rest result))

  -- the same with the steps of its agents written out
  unfoldable pub plan_flow : Plan W → Flow W
  plan_flow (finish v) = Durable.finish v
  plan_flow (fail message stack) = Durable.fail message stack
  plan_flow (step id fn rest) = Durable.step id fn (λ v. plan_flow (rest v))
  plan_flow (wait id question rest) = Durable.wait id question (λ v. plan_flow (rest v))
  plan_flow (converse agent input rest) =
      agent_flow host agent input (λ result. plan_flow (rest result))

-- the name is free, or the agent's own from an earlier run
abbrev pub IsFree : {W : Type 0} → List (Text × ℕ) → Agent W → Type 0
IsFree claims agent =
    (lookup agent.opts.name claims ≡ none) ⊎ (lookup agent.opts.name claims ≡ some agent.identity)

-- No two agents of the plan have one name, and what they call touches only the world.
unfoldable pub IsSound : {W : Type 0} → List (Text × ℕ) → Plan W → Type 0
IsSound claims (finish v) = Unit
IsSound claims (fail message stack) = Unit
IsSound claims (step id fn rest) = (v : Value) → IsSound claims (rest v)
IsSound claims (wait id question rest) = (v : Value) → IsSound claims (rest v)
IsSound claims (converse agent input rest) =
    IsFree claims agent
    × AreEffects agent.opts
    × ((result : AgentResult)
        → IsSound (insert agent.opts.name agent.identity claims) (rest result))

module _ {W : Type 0} (host : Host) where
  plan_handler-seen :
      (claims : List (Text × ℕ)) (plan : Plan W)
      → IsSound claims plan
      → (s : State W) → s.claims ≡ claims
      → seen (plan_handler host plan s) ≡ seen (handler_of host (plan_flow host plan) s)
  unfolding plan_handler plan_flow handler_of IsSound run_agent
  plan_handler-seen claims (finish v) sound s own = refl
  plan_handler-seen claims (fail message stack) sound s own = refl
  plan_handler-seen claims (step id fn rest) sound s own =
      seen-then_do host claims (λ v. plan_handler host (rest v))
        (λ v. handler_of host (plan_flow host (rest v)))
        (λ v t mine. plan_handler-seen claims (rest v) (sound v) t mine)
        (run host id (effect_of fn) s) (run-claims host id fn s ∙ own)
  plan_handler-seen claims (wait id question rest) sound s own =
      seen-then_do host claims (λ v. plan_handler host (rest v))
        (λ v. handler_of host (plan_flow host (rest v)))
        (λ v t mine. plan_handler-seen claims (rest v) (sound v) t mine) (ask host id question s)
        (ask-claims host id question s ∙ own)
  plan_handler-seen claims (converse agent input rest) (free, effects, sound) s own =
      let loop =
        iterate host agent.opts agent.max_iterations agent.max_iterations 0 (beginning input) in
      let later = λ (result : AgentResult). plan_handler host (rest result) in
      let named = subst (λ c. IsFree c agent) (sym own) free in
      ap (λ r. seen (then_do (then_do r (λ _. loop)) later)) (claim-free host agent s named)
      ∙ iterate-Simulates host agent.opts effects agent.max_iterations agent.max_iterations 0
          (beginning input) (claimed agent s).claims later (λ result. plan_flow host (rest result))
          (λ result t mine.
            plan_handler-seen (insert agent.opts.name agent.identity claims) (rest result)
              (sound result) t (mine ∙ ap (insert agent.opts.name agent.identity) own))
          (claimed agent s) refl
      ∙ ap seen (
          handler_of-with_claims host (claimed agent s).claims
            (agent_flow host agent input (λ result. plan_flow host (rest result))) s)

-- Callbacks do not tell the plan from the workflow with the steps of its agents written out.
pub plan-RunsAs :
    {W : Type 0} (host : Host) (f : Text) (handler : Exec W Value) (plan : Plan W)
    → handler ≡ plan_handler host plan
    → IsSound [] plan
    → RunsAs host f handler (plan_flow host plan)
plan-RunsAs host f handler plan runs sound steps w =
    ap (λ h. seen (h (at host f steps [] w))) runs
    ∙ plan_handler-seen host [] plan sound (at host f steps [] w) refl

-- A durable run of a function whose handler runs any number of agents among its steps and questions ends,
-- after any number of callbacks, with the result and in the world of the direct execution of all the calls of
-- models, tools and steps: each is attempted until it succeeds and never again, each question is asked once,
-- and where an agent or the handler throws an error outside a step no callback ends the run. No two agents
-- have one name, though one agent may run again; models, tools and hooks touch only the world and throw no
-- interrupt; SHA-256 has no collision among the function's keys.
pub drive-plan-eq-direct :
    {W : Type 0} (host : Host) (platform : Platform W) (f : Text) (tf : TriggerFunction W)
    (context : HandlerContext) (plan : Plan W) (fuel : ℕ) (w : W)
    → tf.handler context ≡ plan_handler host plan
    → IsSound [] plan
    → CollisionFree host f
    → drive platform fuel tf f context [] w ≡ direct host platform fuel (plan_flow host plan) w
drive-plan-eq-direct host platform f tf context plan fuel w runs sound free =
    drive-RunsAs host platform f tf context (plan_flow host plan) fuel w
      (plan-RunsAs host f (tf.handler context) plan runs sound) free
