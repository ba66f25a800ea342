-- ===== src/Agent/Durably/Limited.antt =====
-- Runs of handlers with agents (sdk-ts/src/agent.ts) under a platform that gives up (docs/protocol.md, section 7).
use triggerlink.Prelude.{ℕ, ◌≡◌, [], Text}
use triggerlink.Execx.{Host}
use triggerlink.Execx.Keys.{CollisionFree}
use triggerlink.Function.{HandlerContext, TriggerFunction}
use triggerlink.Durable.{Platform}
use triggerlink.Durable.Callbacks.{attempt_of}
use triggerlink.Durable.Limited.{Policy, direct_limited, drive_limited}
use triggerlink.Durable.Limited.Refinement.{drive_limited-RunsAs}
use triggerlink.Durable.Limited.Termination.{RunEnds, drive_limited-RunEnds}
use triggerlink.Agent.Durably.Plan.{Plan, plan_handler, plan_flow, IsSound, plan-RunsAs}

module _ {W : Type 0} (host : Host) (platform : Platform W) (policy : Policy) (f : Text)
    (tf : TriggerFunction W) (context : HandlerContext) (plan : Plan W) where
  -- Under a platform that gives up, a durable run of a function whose handler runs any number of agents among
  -- its steps and questions ends, after any number of callbacks, as the direct execution of all the calls of
  -- models, tools and steps does: with the same result, or failed with the same message, and in the same world.
  -- A failure is retried while fewer callbacks were made than the run may have attempts, whatever they came
  -- to, and the platform may refuse what it is asked for. No two agents have one name, though one agent may run
  -- again; models, tools and hooks touch only the world and throw no interrupt; the handler does not read the
  -- number of the attempt; SHA-256 has no collision among the function's keys.
  pub drive_limited-eq-direct :
      (fuel : ℕ) (w : W)
      → ((n : ℕ) → tf.handler (attempt_of n context) ≡ plan_handler host plan)
      → IsSound [] plan
      → CollisionFree host f
      → drive_limited platform policy fuel 0 tf f context [] w
        ≡ direct_limited host platform policy fuel 0 (plan_flow host plan) w
  drive_limited-eq-direct fuel w runs sound free =
      drive_limited-RunsAs host platform policy f tf context (plan_flow host plan) fuel w
        (λ n. plan-RunsAs host f (tf.handler (attempt_of n context)) plan (runs n) sound) free

  -- Under a platform that gives up, every durable run of a function whose handler runs any number of agents among its
  -- steps and questions ends: with enough fuel for its callbacks it completes or has failed, by a course in which
  -- each step goes on with the value of the one attempt that succeeds, the run fails at a failure that comes after
  -- as many callbacks as it may have attempts, or more, and at most as many callbacks fail (one, if that is zero),
  -- however many the steps are. No two agents have one name, though one agent may run again; models, tools and
  -- hooks touch only the world and throw no interrupt; the handler does not read the number of the attempt;
  -- SHA-256 has no collision among the function's keys.
  pub drive_limited-plan-RunEnds :
      (w : W)
      → ((n : ℕ) → tf.handler (attempt_of n context) ≡ plan_handler host plan)
      → IsSound [] plan
      → CollisionFree host f
      → RunEnds host platform policy f tf context (plan_flow host plan) w
  drive_limited-plan-RunEnds w runs sound free =
      drive_limited-RunEnds host platform policy f tf context (plan_flow host plan) w
        (λ n. plan-RunsAs host f (tf.handler (attempt_of n context)) plan (runs n) sound) free
