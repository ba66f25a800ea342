-- ===== src/Durable/Limited/Termination.antt =====
-- A durable run under a platform that gives up, and the end that its workflow comes to.
use triggerlink.Prelude.{
  ℕ, zero, suc, ◌-◌, ◌≤◌, ◌<◌, ◌≡◌, refl, ◌∙◌, some, [], arith, Text, leb, true, false,
}
use triggerlink.Execx.{Host}
use triggerlink.Execx.Keys.{CollisionFree}
use triggerlink.Function.{HandlerContext, TriggerFunction}
use triggerlink.Durable.{Flow, Platform}
use triggerlink.Durable.Refinement.{RunsAs}
use triggerlink.Durable.Callbacks.{attempt_of}
use triggerlink.Durable.Limited.{Policy, Ended, retry_or_fail, direct_limited, drive_limited}
use triggerlink.Durable.Limited.Refinement.{drive_limited-RunsAs}
use triggerlink.Durable.Limited.Ending.{
  Fails, throws, step_fails, complains, is_refused, Course, finished, passed, answered, retried,
  stopped, Course-failures, Flow-HasEnd,
}

leb-true : (m n : ℕ) → m ≤ n → leb m n ≡ true
leb-true m n less = ground (arith, less)

leb-false : (m n : ℕ) → n < m → leb m n ≡ false
leb-false m n less = ground (arith, less)

module _ {W : Type 0} (host : Host) (platform : Platform W) (policy : Policy) where
  direct_limited-Fails :
      (fuel n : ℕ) {flow : Flow W} {w w' : W} {message : Text}
      → Fails host platform policy flow w message w'
      → direct_limited host platform policy (suc fuel) n flow w
        ≡ retry_or_fail policy
            (suc n)
            message
            (direct_limited host platform policy fuel (suc n) flow)
            w'
  unfolding direct_limited
  direct_limited-Fails fuel n throws = refl
  direct_limited-Fails fuel n (step_fails e) = rw e refl
  direct_limited-Fails fuel n (complains e) = rw e refl
  direct_limited-Fails fuel n (is_refused e refused) = rw (e, refused) refl

  -- So much fuel is enough.
  direct_limited-Course :
      (fuel : ℕ) {n : ℕ} {flow : Flow W} {w : W} {m k : ℕ} {e : Ended} {u : W}
      → m ≤ fuel
      → Course host platform policy n flow w m k e u
      → direct_limited host platform policy fuel n flow w ≡ some (e, u)
  unfolding direct_limited
  direct_limited-Course zero less finished = absurd (omega (arith, less))
  direct_limited-Course zero less (passed {m = m} e later) = absurd (omega (arith, less))
  direct_limited-Course zero less (answered {m = m} e accepted answer later) =
      absurd (omega (arith, less))
  direct_limited-Course zero less (retried {m = m} fails more later) = absurd (omega (arith, less))
  direct_limited-Course zero less (stopped fails last) = absurd (omega (arith, less))
  direct_limited-Course (suc fuel) less finished = refl
  direct_limited-Course (suc fuel) less (passed {m = m} e later) =
      rw e (direct_limited-Course fuel (omega (arith, less)) later)
  direct_limited-Course (suc fuel) less (answered {m = m} e accepted answer later) =
      rw (e, accepted, answer) (direct_limited-Course fuel (omega (arith, less)) later)
  direct_limited-Course (suc fuel) less (retried {n = n} {m = m} fails more later) =
      direct_limited-Fails fuel n fails
      ∙ rw (leb-false policy.attempts (suc n) more)
          (direct_limited-Course fuel (omega (arith, less)) later)
  direct_limited-Course (suc fuel) less (stopped {n = n} fails last) =
      direct_limited-Fails fuel n fails ∙ rw (leb-true policy.attempts (suc n) last) refl

-- How a run of a workflow ends: the end and the world, the callbacks and the failed ones among them.
pub record RunEnds {W : Type 0} (host : Host) (platform : Platform W) (policy : Policy) (f : Text)
    (tf : TriggerFunction W) (context : HandlerContext) (flow : Flow W) (w : W) : Type 0 where
  pub callbacks : ℕ
  pub failures : ℕ
  pub end : Ended
  pub world : W
  pub course : Course host platform policy 0 flow w callbacks failures end world
  pub few_failures : failures ≤ suc (policy.attempts - 1)
  pub ends :
      (fuel : ℕ)
      → callbacks ≤ fuel
      → drive_limited platform policy fuel 0 tf f context [] w ≡ some (end, world)

pub drive_limited-RunEnds :
    {W : Type 0} (host : Host) (platform : Platform W) (policy : Policy) (f : Text)
    (tf : TriggerFunction W) (context : HandlerContext) (flow : Flow W) (w : W)
    → ((n : ℕ) → RunsAs host f (tf.handler (attempt_of n context)) flow)
    → CollisionFree host f
    → RunEnds host platform policy f tf context flow w
drive_limited-RunEnds host platform policy f tf context flow w runs free =
    let (m, k, e, u, course) = Flow-HasEnd host platform policy flow 0 w in
    record {
      callbacks = m;
      failures = k;
      end = e;
      world = u;
      course = course;
      few_failures = ground (arith, Course-failures host platform policy course);
      ends = λ fuel less.
          drive_limited-RunsAs host platform policy f tf context flow fuel w runs free
          ∙ direct_limited-Course host platform policy fuel less course;
    }
