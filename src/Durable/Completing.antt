-- ===== src/Durable/Completing.antt =====
-- When a durable run of a workflow ends, and with what: callbacks against the attempts of the steps.
use triggerlink.Prelude.{
  ℕ, zero, suc, ◌≤◌, ◌≡◌, ◌↔◌, refl, sym, ◌∙◌, subst, Option, none, some, [], arith, Text,
}
use triggerlink.Value.{Value}
use triggerlink.Execx.{Host}
use triggerlink.Execx.Keys.{CollisionFree}
use triggerlink.Function.{HandlerContext, TriggerFunction}
use triggerlink.Durable.{
  Question, Query, query_of, reply, deliver, Platform, wait, answered, Flow, finish, fail, step,
  Attempt, done, failed, handler_of, direct, drive, settle,
}
use triggerlink.Durable.Refinement.{drive-eq-direct}

-- From a world a workflow comes to a result and a world, by so many callbacks: one for each attempt of a
-- step, and one that finds all the steps completed.
pub data Completes {W : Type 0} (host : Host) (platform : Platform W)
    : Flow W → W → ℕ → Value → W → Type 0 where
  finished : {v : Value} {w : W} → Completes host platform (finish v) w 1 v w
  passed :
      {id : Text} {fn : W → Attempt × W} {rest : Value → Flow W} {w w' : W} {v : Value} {n : ℕ}
      {r : Value} {u : W}
      → fn w ≡ (done v, w')
      → Completes host platform (rest v) w' n r u
      → Completes host platform (step id fn rest) w (suc n) r u
  retried :
      {id : Text} {fn : W → Attempt × W} {rest : Value → Flow W} {w w' : W} {m : Text}
      {st : Option Text} {n : ℕ} {r : Value} {u : W}
      → fn w ≡ (failed m st, w')
      → Completes host platform (step id fn rest) w' n r u
      → Completes host platform (step id fn rest) w (suc n) r u
  asked :
      {id : Text} {q : Question W} {rest : Value → Flow W} {w w' : W} {query : Query} {v : Value}
      {n : ℕ} {r : Value} {u : W}
      → query_of host q w ≡ some query
      → reply platform query w ≡ (v, w')
      → Completes host platform (rest (deliver q v)) w' n r u
      → Completes host platform (wait id q rest) w (suc n) r u

module _ {W : Type 0} (host : Host) (platform : Platform W) where
  abbrev pub CompletesWithin : ℕ → Flow W → W → Value → W → Type 0
  CompletesWithin fuel flow w r u = (n : ℕ) × (n ≤ fuel) × Completes host platform flow w n r u

  direct-Completes :
      (fuel : ℕ) {flow : Flow W} {w : W} {n : ℕ} {r : Value} {u : W}
      → n ≤ fuel
      → Completes host platform flow w n r u
      → direct host platform fuel flow w ≡ some (r, u)
  unfolding direct
  direct-Completes zero less finished = absurd (omega (arith, less))
  direct-Completes zero less (passed {n = n} e later) = absurd (omega (arith, less))
  direct-Completes zero less (retried {n = n} e later) = absurd (omega (arith, less))
  direct-Completes zero less (asked {n = n} e answer later) = absurd (omega (arith, less))
  direct-Completes (suc fuel) less finished = refl
  direct-Completes (suc fuel) less (passed {n = n} e later) =
      rw e (direct-Completes fuel (omega (arith, less)) later)
  direct-Completes (suc fuel) less (retried {n = n} e later) =
      rw e (direct-Completes fuel (omega (arith, less)) later)
  direct-Completes (suc fuel) less (asked {n = n} e answer later) =
      rw (e, answer) (direct-Completes fuel (omega (arith, less)) later)

  -- A question that the code refuses is asked for ever.
  refused :
      (fuel : ℕ) (id : Text) (q : Question W) (rest : Value → Flow W) (w : W)
      → query_of host q w ≡ none
      → direct host platform fuel (wait id q rest) w ≡ none
  unfolding direct
  refused zero id q rest w e = refl
  refused (suc fuel) id q rest w e = rw e (refused fuel id q rest w e)

  answered-some :
      (fuel : ℕ) (id : Text) (q : Question W) (rest : Value → Flow W) (w : W) (r : Value) (u : W)
      (query : Option Query)
      → query_of host q w ≡ query
      → ((flow : Flow W) (w : W)
          → direct host platform fuel flow w ≡ some (r, u)
          → CompletesWithin fuel flow w r u)
      → answered platform
          (λ v. direct host platform fuel (rest (deliver q v)))
          (direct host platform fuel (wait id q rest))
          query
          w
        ≡ some (r, u)
      → CompletesWithin (suc fuel) (wait id q rest) w r u
  answered-some fuel id q rest w r u none e known ends =
      let stuck = refused fuel id q rest w e in absurd (cc)
  answered-some fuel id q rest w r u (some query) e known ends =
      let (n, less, later) =
        known (rest (deliver q (reply platform query w).0)) (reply platform query w).1 ends in
      (suc n, omega (arith, less), asked e refl later)

  settle-some :
      (fuel : ℕ) (id : Text) (fn : W → Attempt × W) (rest : Value → Flow W) (w : W) (r : Value)
      (u : W) (a : Attempt) (w' : W)
      → fn w ≡ (a, w')
      → ((flow : Flow W) (w : W)
          → direct host platform fuel flow w ≡ some (r, u)
          → CompletesWithin fuel flow w r u)
      → settle
          (λ v. direct host platform fuel (rest v))
          (direct host platform fuel (step id fn rest))
          (a, w')
        ≡ some (r, u)
      → CompletesWithin (suc fuel) (step id fn rest) w r u
  settle-some fuel id fn rest w r u (done v) w' e known ends =
      let (n, less, later) = known (rest v) w' ends in (suc n, omega (arith, less), passed e later)
  settle-some fuel id fn rest w r u (failed m st) w' e known ends =
      let (n, less, later) = known (step id fn rest) w' ends in
      (suc n, omega (arith, less), retried e later)

  never :
      (fuel : ℕ) (m : Text) (st : Option Text) (w : W)
      → direct host platform fuel (fail m st) w ≡ none
  unfolding direct
  never zero m st w = refl
  never (suc fuel) m st w = never fuel m st w

  direct-some :
      (fuel : ℕ) (r : Value) (u : W) (flow : Flow W) (w : W)
      → direct host platform fuel flow w ≡ some (r, u)
      → CompletesWithin fuel flow w r u
  unfolding direct
  direct-some zero r u flow w e = absurd (cc)
  direct-some (suc fuel) r u (finish v) w e =
      (1, omega arith, subst (λ (x, y). Completes host platform (finish v) w 1 x y) (cc) finished)
  direct-some (suc fuel) r u (fail m st) w e = absurd (let n = never fuel m st w in cc)
  direct-some (suc fuel) r u (step id fn rest) w e =
      settle-some fuel id fn rest w r u (fn w).0 (fn w).1 refl (direct-some fuel r u) e
  direct-some (suc fuel) r u (wait id q rest) w e =
      answered-some fuel id q rest w r u (query_of host q w) refl (direct-some fuel r u) e

pub direct-CompletesWithin_iff :
    {W : Type 0} (host : Host) (platform : Platform W) (flow : Flow W) (fuel : ℕ) (w : W)
    (r : Value) (u : W)
    → (direct host platform fuel flow w ≡ some (r, u))
      ↔ CompletesWithin host platform fuel flow w r u
direct-CompletesWithin_iff host platform flow fuel w r u = (
  direct-some host platform fuel r u flow w,
  λ (n, less, completes). direct-Completes host platform fuel less completes,
)

-- A function whose handler runs a workflow comes to a result and a world within some number of callbacks
-- exactly if the workflow's steps come to them in at most as many: each step called again until it
-- succeeds and not after, each question asked once, in their order, and one callback at the end. SHA-256
-- has no collision among the function's keys, and retries are not limited.
pub drive-CompletesWithin_iff :
    {W : Type 0} (host : Host) (platform : Platform W) (f : Text) (tf : TriggerFunction W)
    (context : HandlerContext) (flow : Flow W) (fuel : ℕ) (w : W) (r : Value) (u : W)
    → tf.handler context ≡ handler_of host flow
    → CollisionFree host f
    → (drive platform fuel tf f context [] w ≡ some (r, u))
      ↔ CompletesWithin host platform fuel flow w r u
drive-CompletesWithin_iff host platform f tf context flow fuel w r u runs free =
    let same = drive-eq-direct host platform f tf context flow fuel w runs free in
    (
      λ e. direct-some host platform fuel r u flow w (sym same ∙ e),
      λ (n, less, completes). same ∙ direct-Completes host platform fuel less completes,
    )
