-- ===== src/Agent/Durably/Callbacks.antt =====
-- A run of signed callbacks (POST of sdk-ts/src/serve.ts) of a function whose handler runs an agent
-- (sdk-ts/src/agent.ts), or any number of them among its other steps.
use triggerlink.Prelude.{ℕ, ◌≡◌, ◌↔◌, sym, ◌∙◌, some, List, [], Text, lookup}
use triggerlink.Value.{Value}
use triggerlink.Execx.{Host}
use triggerlink.Execx.Keys.{CollisionFree}
use triggerlink.Sign.Verdicts.{HasHexDigests}
use triggerlink.Function.{HandlerContext, TriggerFunction}
use triggerlink.Registry.{Registry}
use triggerlink.Client.{Client}
use triggerlink.Durable.{Platform, finish, direct}
use triggerlink.Durable.Callbacks.{attempt_of, IsGiven, AreCarried, Clock, drive_signed}
use triggerlink.Durable.Callbacks.Equivalence.{drive_signed-AreCarried}
use triggerlink.Agent.Options.{Agent}
use triggerlink.Agent.Memo.{AgentResult}
use triggerlink.Agent.Durably.{AreEffects}
use triggerlink.Agent.Durably.Plan.{Plan, plan_handler, plan_flow, IsSound, drive-plan-eq-direct}
use triggerlink.Agent.Durably.Execution.{agent_handler, ConversesWithin, drive-Converses_iff}

-- A run of signed callbacks of a function whose handler runs an agent, and makes a value of its result, comes
-- to a value and a world within some number of callbacks exactly if the agent converses to a result of that
-- value and to that world in fewer calls of the model and the tools, the failed ones counted. The model, the
-- tools and the hooks touch only the world and throw no interrupt. The function is registered under the id,
-- and its handler does not read the number of the attempt; each callback is checked within five minutes of
-- the second it is signed in, it fits the limit on bodies, its bytes parse to its value, and the outputs and
-- event data of its answer are undefined or JSON; the batch of events is left out or not falsy; digests are in
-- hexadecimal; SHA-256 has no collision among the function's keys.
pub drive_signed-Converses_iff :
    {W : Type 0} (platform : Platform W) (host : Host) (encode : Value → List ℕ) (clock : Clock)
    (client : Client) (reg : Registry W) (f : Text) (tf : TriggerFunction W)
    (context : HandlerContext) (agent : Agent W) (input : Text) (show : AgentResult → Value)
    (fuel : ℕ) (w : W) (v : Value) (u : W)
    → lookup f reg ≡ some tf
    → ((n : ℕ)
        → tf.handler (attempt_of n context)
          ≡ agent_handler host agent input (λ result. finish (show result)))
    → AreEffects agent.opts
    → IsGiven context.events
    → HasHexDigests host
    → CollisionFree host f
    → AreCarried platform host encode f tf context fuel 0 [] w
    → (drive_signed platform host encode clock.sent clock.received client reg f context fuel 0 [] w
        ≡ some (v, u))
      ↔ ConversesWithin host agent input show fuel w v u
drive_signed-Converses_iff platform host encode clock client reg f tf context agent input show fuel
      w v u found runs effects given digests free carried =
    let same =
      drive_signed-AreCarried platform host encode clock client reg f tf digests found context
        (λ n. runs n ∙ sym (runs 0)) fuel 0 [] w given carried in
    let (there, back) =
      drive-Converses_iff host platform f tf (attempt_of 0 context) agent input show fuel w v u
        (runs 0) effects free in
    (λ e. there (sym same ∙ e), λ converses. same ∙ back converses)

-- A run of signed callbacks of a function whose handler runs any number of agents among its steps and
-- questions ends, after any number of callbacks, with the result and in the world of the direct execution of
-- all the calls of models, tools and steps, whatever the platform answers to its questions. No two agents
-- have one name, though one agent may run again; models, tools and hooks touch only the world and throw no
-- interrupt. The function is registered under the id, and its handler does not read the number of the attempt;
-- each callback is checked within five minutes of the second it is signed in, it fits the limit on bodies, its
-- bytes parse to its value, and the outputs and event data of its answer are undefined or JSON; the batch of
-- events is left out or not falsy; digests are in hexadecimal; SHA-256 has no collision among the function's
-- keys.
pub drive_signed-plan-eq-direct :
    {W : Type 0} (platform : Platform W) (host : Host) (encode : Value → List ℕ) (clock : Clock)
    (client : Client) (reg : Registry W) (f : Text) (tf : TriggerFunction W)
    (context : HandlerContext) (plan : Plan W) (fuel : ℕ) (w : W)
    → lookup f reg ≡ some tf
    → ((n : ℕ) → tf.handler (attempt_of n context) ≡ plan_handler host plan)
    → IsSound [] plan
    → IsGiven context.events
    → HasHexDigests host
    → CollisionFree host f
    → AreCarried platform host encode f tf context fuel 0 [] w
    → drive_signed platform host encode clock.sent clock.received client reg f context fuel 0 [] w
      ≡ direct host platform fuel (plan_flow host plan) w
drive_signed-plan-eq-direct platform host encode clock client reg f tf context plan fuel w found
      runs sound given digests free carried =
    drive_signed-AreCarried platform host encode clock client reg f tf digests found context
      (λ n. runs n ∙ sym (runs 0)) fuel 0 [] w given carried
    ∙ drive-plan-eq-direct host platform f tf (attempt_of 0 context) plan fuel w (runs 0) sound free
