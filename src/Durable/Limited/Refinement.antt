-- ===== src/Durable/Limited/Refinement.antt =====
-- A durable run under a platform that gives up against its direct execution.
use triggerlink.Prelude.{
  ℕ, zero, suc, ◌≡◌, refl, Option, none, some, List, [], Text, insert, keys, All,
}
use triggerlink.Value.{Value}
use triggerlink.Execx.{Host, StepState, error}
use triggerlink.Execx.Keys.{CollisionFree}
use triggerlink.Effects.{returned, threw}
use triggerlink.Function.{HandlerContext, TriggerFunction}
use triggerlink.Step.{err_message}
use triggerlink.Serve.{opcode_of}
use triggerlink.Durable.{
  Flow, finish, fail, step, wait, Attempt, done, failed, Question, Query, sleeping, sending,
  waiting, query_of, deliver, memo, Platform, handler_of,
}
use triggerlink.Durable.Refinement.{RunsAs, invoke-Reaches, step_miss}
use triggerlink.Durable.Asking.{complaint, Asked, question_miss}
use triggerlink.Durable.Callbacks.{attempt_of}
use triggerlink.Durable.Limited.{Policy, Ended, answer_or_fail, direct_limited, drive_limited}
use triggerlink.Durable.Replay.{
  Counters, key, bump, IsPast, lookup-key, keys-insert-IsPast, Reaches, start, at, Reaches-complete,
  Reaches-answered,
}

module _ {W : Type 0} where
  answer_or_fail_ext :
      (platform : Platform W) (policy : Policy) (n : ℕ)
      (go_on go_on' : Value → W → Option (Ended × W)) (again again' : W → Option (Ended × W))
      (refused : Option Text) (query : Query) (w : W)
      → ((v : Value) (w' : W) → go_on v w' ≡ go_on' v w')
      → again w ≡ again' w
      → answer_or_fail platform policy n go_on again refused query w
        ≡ answer_or_fail platform policy n go_on' again' refused query w
  answer_or_fail_ext platform policy n go_on go_on' again again' none query w same retry = same _ _
  answer_or_fail_ext platform policy n go_on go_on' again again' (some why) query w same retry =
      rw retry refl

module _ {W : Type 0} (host : Host) (platform : Platform W) (policy : Policy) (f : Text)
    (tf : TriggerFunction W) (context : HandlerContext) (root : Flow W)
    (runs : (n : ℕ) → RunsAs host f (tf.handler (attempt_of n context)) root)
    (free : CollisionFree host f) where
  -- What is to be shown of a run that has reached a rest of the workflow.
  abbrev IsDirect : (fuel n : ℕ) → Flow W → List (Text × StepState) → W → Type 0
  IsDirect fuel n flow steps w =
      drive_limited platform policy fuel n tf f context steps w
      ≡ direct_limited host platform policy fuel n flow w

  step-IsDirect :
      (fuel n : ℕ) (id : Text) (fn : W → Attempt × W) (rest : Value → Flow W)
      (steps : List (Text × StepState)) (c : Counters) (w : W) (a : Attempt) (w' : W)
      → fn w ≡ (a, w')
      → Reaches host f root steps (step id fn rest) c
      → All (IsPast host f c) (keys steps)
      → ((v : Value)
          → let steps' = insert (key host f id c) (memo id v) steps in
            Reaches host f root steps' (rest v) (bump host f id c)
            → All (IsPast host f (bump host f id c)) (keys steps')
            → IsDirect fuel (suc n) (rest v) steps' w')
      → IsDirect fuel (suc n) (step id fn rest) steps w'
      → IsDirect (suc fuel) n (step id fn rest) steps w
  unfolding drive_limited direct_limited opcode_of
  step-IsDirect fuel n id fn rest steps c w (done v) w' e r past ok retry =
      let fresh = lookup-key host f id c steps free past in
      rw
        (
          invoke-Reaches host f tf (attempt_of n context) root (runs n) w _ _ r
              (step_miss host f id fn rest steps c w w' (done v) fresh e),
          e,
        )
        (ok v (Reaches-complete host f v fresh r) (keys-insert-IsPast host f id c _ steps past))
  step-IsDirect fuel n id fn rest steps c w (failed m st) w' e r past ok retry =
      let fresh = lookup-key host f id c steps free past in
      rw
        (
          invoke-Reaches host f tf (attempt_of n context) root (runs n) w _ _ r
              (step_miss host f id fn rest steps c w w' (failed m st) fresh e),
          e,
          retry,
        )
        refl

  wait-IsDirect :
      (fuel n : ℕ) (id : Text) (q : Question W) (rest : Value → Flow W)
      (steps : List (Text × StepState)) (c : Counters) (w : W) (query : Option Query)
      → query_of host q w ≡ query
      → Asked
          (key host f id c)
          id
          (at host f steps (bump host f id c) w)
          (complaint host id q w)
          query
          (handler_of host (wait id q rest) (at host f steps c w))
      → Reaches host f root steps (wait id q rest) c
      → ((v : Value) (w' : W)
          → IsDirect fuel
              (suc n)
              (rest (deliver q v))
              (insert (key host f id c) (memo id v) steps)
              w')
      → IsDirect fuel (suc n) (wait id q rest) steps w
      → IsDirect (suc fuel) n (wait id q rest) steps w
  unfolding drive_limited direct_limited opcode_of err_message
  wait-IsDirect fuel n id q rest steps c w none e (st, ends) r ok retry =
      rw (invoke-Reaches host f tf (attempt_of n context) root (runs n) w _ _ r ends, e, retry) refl
  wait-IsDirect fuel n id q rest steps c w (some (sleeping until)) e ends r ok retry =
      rw (invoke-Reaches host f tf (attempt_of n context) root (runs n) w _ _ r ends, e)
        (answer_or_fail_ext platform policy (suc n) _ _ _ _ (policy.refusal (sleeping until))
          (sleeping until) w ok retry)
  wait-IsDirect fuel n id q rest steps c w (some (sending events)) e ends r ok retry =
      rw (invoke-Reaches host f tf (attempt_of n context) root (runs n) w _ _ r ends, e)
        (answer_or_fail_ext platform policy (suc n) _ _ _ _ (policy.refusal (sending events))
          (sending events) w ok retry)
  wait-IsDirect fuel n id q rest steps c w (some (waiting event match timeout)) e ends r ok retry =
      rw (invoke-Reaches host f tf (attempt_of n context) root (runs n) w _ _ r ends, e)
        (answer_or_fail_ext platform policy (suc n) _ _ _ _
          (policy.refusal (waiting event match timeout)) (waiting event match timeout) w ok retry)

  -- A run that has reached a rest of the workflow ends as the rest does.
  Reaches-IsDirect :
      (fuel n : ℕ) (flow : Flow W) (steps : List (Text × StepState)) (c : Counters) (w : W)
      → Reaches host f root steps flow c
      → All (IsPast host f c) (keys steps)
      → IsDirect fuel n flow steps w
  unfolding drive_limited direct_limited opcode_of handler_of err_message
  Reaches-IsDirect zero n flow steps c w r past = refl
  Reaches-IsDirect (suc fuel) n (finish v) steps c w r past =
      rw
        (invoke-Reaches host f tf (attempt_of n context) root (runs n) w (returned v)
          (at host f steps c w) r refl)
        refl
  Reaches-IsDirect (suc fuel) n (fail m st) steps c w r past =
      rw
        (
          invoke-Reaches host f tf (attempt_of n context) root (runs n) w (threw (error m st))
              (at host f steps c w) r refl,
          Reaches-IsDirect fuel (suc n) (fail m st) steps c w r past,
        )
        refl
  Reaches-IsDirect (suc fuel) n (step id fn rest) steps c w r past =
      step-IsDirect fuel n id fn rest steps c w (fn w).0 (fn w).1 refl r past
        (λ v r' past'.
          Reaches-IsDirect fuel (suc n) (rest v) _ (bump host f id c) (fn w).1 r' past')
        (Reaches-IsDirect fuel (suc n) (step id fn rest) steps c (fn w).1 r past)
  Reaches-IsDirect (suc fuel) n (wait id q rest) steps c w r past =
      let fresh = lookup-key host f id c steps free past in
      wait-IsDirect fuel n id q rest steps c w (query_of host q w) refl
        (question_miss host f id q rest steps c w fresh) r
        (λ v w'.
          Reaches-IsDirect fuel (suc n) (rest (deliver q v)) _ (bump host f id c) w'
            (Reaches-answered host f v fresh r) (keys-insert-IsPast host f id c _ steps past))
        (Reaches-IsDirect fuel (suc n) (wait id q rest) steps c w r past)

-- Under a platform that gives up, too, a run is the direct execution of the workflow that the handler runs as.
pub drive_limited-RunsAs :
    {W : Type 0} (host : Host) (platform : Platform W) (policy : Policy) (f : Text)
    (tf : TriggerFunction W) (context : HandlerContext) (flow : Flow W) (fuel : ℕ) (w : W)
    → ((n : ℕ) → RunsAs host f (tf.handler (attempt_of n context)) flow)
    → CollisionFree host f
    → drive_limited platform policy fuel 0 tf f context [] w
      ≡ direct_limited host platform policy fuel 0 flow w
drive_limited-RunsAs host platform policy f tf context flow fuel w runs free =
    Reaches-IsDirect host platform policy f tf context flow runs free fuel 0 flow [] [] w start tt
