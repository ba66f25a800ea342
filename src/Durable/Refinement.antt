-- ===== src/Durable/Refinement.antt =====
-- The durable execution of a workflow against its direct execution.
use triggerlink.Prelude.{
  ℕ, zero, suc, ◌≡◌, refl, ap, ◌∙◌, Option, none, some, List, [], true, Text, lookup, insert, keys,
  All,
}
use triggerlink.Value.{Value}
use triggerlink.Execx.{Host, StepState, Opcode, error, interrupt, next_hash, new_ctx}
use triggerlink.Execx.Keys.{CollisionFree}
use triggerlink.Effects.{Outcome, returned, threw, State, Exec}
use triggerlink.Step.{run, enter, memo_of, completed}
use triggerlink.Step
use triggerlink.Function.{HandlerContext, TriggerFunction}
use triggerlink.Serve.{opcode_of, invoke}
use triggerlink.Durable.{
  Flow, finish, fail, step, wait, Attempt, done, failed, Question, Query, sleeping, sending,
  waiting, query_of, deliver, memo, Platform, handler_of, direct, drive,
}
use triggerlink.Durable.Simulation.{seen}
use triggerlink.Durable.Asking.{complaint, Asked, question_miss}
use triggerlink.Durable.Replay.{
  Counters, key, bump, IsPast, lookup-key, keys-insert-IsPast, Reaches, start, at,
  handler_of-Reaches, Reaches-complete, Reaches-answered,
}

-- The opcode that a callback answers with when it attempts a step.
abbrev pub attempt_opcode : Text → Text → Attempt → Opcode
attempt_opcode h id (done v) = Opcode.step_complete h id v
attempt_opcode h id (failed message stack) =
    Opcode.step_error h id (record { message = message; stack = stack; retryable = true })

module _ {W : Type 0} (host : Host) (f : Text) where
  pub step_miss :
      (id : Text) (fn : W → Attempt × W) (rest : Value → Flow W) (steps : List (Text × StepState))
      (c : Counters) (w w' : W) (a : Attempt)
      → lookup (key host f id c) steps ≡ none
      → fn w ≡ (a, w')
      → handler_of host (step id fn rest) (at host f steps c w) ≡ (
        threw (interrupt (attempt_opcode (key host f id c) id a)),
        at host f steps (bump host f id c) w',
      )
  unfolding handler_of run enter next_hash memo_of lookup insert Step.finish
  step_miss id fn rest steps c w w' (done v) fresh e = rw (fresh, e)
  step_miss id fn rest steps c w w' (failed m st) fresh e = rw (fresh, e)

-- Whatever the memos, callbacks do not tell the handler from the workflow.
abbrev pub RunsAs : {W : Type 0} → Host → Text → Exec W Value → Flow W → Type 0
RunsAs {W} host f handler flow =
    (steps : List (Text × StepState)) (w : W)
    → seen (handler (at host f steps [] w)) ≡ seen (handler_of host flow (at host f steps [] w))

module _ {W : Type 0} (host : Host) (f : Text) (tf : TriggerFunction W) (context : HandlerContext)
    (root : Flow W) (runs : RunsAs host f (tf.handler context) root) where
  -- A callback answers with what the rest of the workflow does that its memos reach.
  pub invoke-Reaches :
      {steps : List (Text × StepState)} {flow : Flow W} {c : Counters} (w : W) (r : Outcome Value)
      (s : State W)
      → Reaches host f root steps flow c
      → handler_of host flow (at host f steps c w) ≡ (r, s)
      → invoke tf f (some steps) context w ≡ (opcode_of r, s.world)
  unfolding invoke new_ctx
  invoke-Reaches {steps = steps} w r s reached e =
      runs steps w ∙ ap seen (handler_of-Reaches host f w reached ∙ e)

  module _ (free : CollisionFree host f) (platform : Platform W) where
    -- One callback that attempts a step, before callbacks of which the theorem is known.
    drive-step :
        (fuel : ℕ) (id : Text) (fn : W → Attempt × W) (rest : Value → Flow W)
        (steps : List (Text × StepState)) (c : Counters) (w : W) (a : Attempt) (w' : W)
        → fn w ≡ (a, w')
        → Reaches host f root steps (step id fn rest) c
        → All (IsPast host f c) (keys steps)
        → ((v : Value)
            → let steps' = insert (key host f id c) (memo id v) steps in
              Reaches host f root steps' (rest v) (bump host f id c)
              → All (IsPast host f (bump host f id c)) (keys steps')
              → drive platform fuel tf f context steps' w' ≡ direct host platform fuel (rest v) w')
        → drive platform fuel tf f context steps w' ≡ direct host platform fuel (step id fn rest) w'
        → drive platform (suc fuel) tf f context steps w
          ≡ direct host platform (suc fuel) (step id fn rest) w
    unfolding drive direct opcode_of
    drive-step fuel id fn rest steps c w (done v) w' e r past ok retry =
        let fresh = lookup-key host f id c steps free past in
        rw (invoke-Reaches w _ _ r (step_miss host f id fn rest steps c w w' (done v) fresh e), e)
          (ok v (Reaches-complete host f v fresh r) (keys-insert-IsPast host f id c _ steps past))
    drive-step fuel id fn rest steps c w (failed m st) w' e r past ok retry =
        let fresh = lookup-key host f id c steps free past in
        rw
          (
            invoke-Reaches w _ _ r (step_miss host f id fn rest steps c w w' (failed m st) fresh e),
            e,
          )
          retry

    -- One callback that asks a question, before callbacks of which the theorem is known.
    drive-wait :
        (fuel : ℕ) (id : Text) (q : Question W) (rest : Value → Flow W)
        (steps : List (Text × StepState)) (c : Counters) (w : W) (query : Option Query)
        → query_of host q w ≡ query
        → Asked
            (key host f id c)
            id
            (at host f steps (bump host f id c) w)
            (complaint host id q w)
            query
            (handler_of host (wait id q rest) (at host f steps c w))
        → Reaches host f root steps (wait id q rest) c
        → ((v : Value) (w' : W)
            → drive platform fuel tf f context (insert (key host f id c) (memo id v) steps) w'
              ≡ direct host platform fuel (rest (deliver q v)) w')
        → drive platform fuel tf f context steps w ≡ direct host platform fuel (wait id q rest) w
        → drive platform (suc fuel) tf f context steps w
          ≡ direct host platform (suc fuel) (wait id q rest) w
    unfolding drive direct opcode_of
    drive-wait fuel id q rest steps c w none e (st, ends) r ok retry =
        rw (invoke-Reaches w _ _ r ends, e) retry
    drive-wait fuel id q rest steps c w (some (sleeping until)) e ends r ok retry =
        rw (invoke-Reaches w _ _ r ends, e) (ok _ _)
    drive-wait fuel id q rest steps c w (some (sending events)) e ends r ok retry =
        rw (invoke-Reaches w _ _ r ends, e) (ok _ _)
    drive-wait fuel id q rest steps c w (some (waiting event match timeout)) e ends r ok retry =
        rw (invoke-Reaches w _ _ r ends, e) (ok _ _)

    -- A run that has reached a rest of the workflow ends as the rest does.
    drive-Reaches :
        (fuel : ℕ) (flow : Flow W) (steps : List (Text × StepState)) (c : Counters) (w : W)
        → Reaches host f root steps flow c
        → All (IsPast host f c) (keys steps)
        → drive platform fuel tf f context steps w ≡ direct host platform fuel flow w
    unfolding drive direct opcode_of handler_of
    drive-Reaches zero flow steps c w r past = refl
    drive-Reaches (suc fuel) (finish v) steps c w r past =
        rw (invoke-Reaches w (returned v) (at host f steps c w) r refl)
    drive-Reaches (suc fuel) (fail m st) steps c w r past =
        rw (invoke-Reaches w (threw (error m st)) (at host f steps c w) r refl)
          (drive-Reaches fuel (fail m st) steps c w r past)
    drive-Reaches (suc fuel) (step id fn rest) steps c w r past =
        drive-step fuel id fn rest steps c w (fn w).0 (fn w).1 refl r past
          (λ v r' past'. drive-Reaches fuel (rest v) _ (bump host f id c) (fn w).1 r' past')
          (drive-Reaches fuel (step id fn rest) steps c (fn w).1 r past)
    drive-Reaches (suc fuel) (wait id q rest) steps c w r past =
        let fresh = lookup-key host f id c steps free past in
        drive-wait fuel id q rest steps c w (query_of host q w) refl
          (question_miss host f id q rest steps c w fresh) r
          (λ v w'.
            drive-Reaches fuel (rest (deliver q v)) _ (bump host f id c) w'
              (Reaches-answered host f v fresh r) (keys-insert-IsPast host f id c _ steps past))
          (drive-Reaches fuel (wait id q rest) steps c w r past)

-- Such a run is the direct execution of the workflow that the handler runs as.
pub drive-RunsAs :
    {W : Type 0} (host : Host) (platform : Platform W) (f : Text) (tf : TriggerFunction W)
    (context : HandlerContext) (flow : Flow W) (fuel : ℕ) (w : W)
    → RunsAs host f (tf.handler context) flow
    → CollisionFree host f
    → drive platform fuel tf f context [] w ≡ direct host platform fuel flow w
drive-RunsAs host platform f tf context flow fuel w runs free =
    drive-Reaches host f tf context flow runs free platform fuel flow [] [] w start tt

-- A function whose handler runs a workflow ends, after any number of callbacks, with the result and in the
-- world of the workflow's direct execution with as many attempts, whatever the platform answers:
-- completed steps are not called again, failed ones are, each question (to sleep, to send events, to
-- wait for one) is answered once, and no effect is lost or repeated. SHA-256 has no collision among
-- the function's keys.
pub drive-eq-direct :
    {W : Type 0} (host : Host) (platform : Platform W) (f : Text) (tf : TriggerFunction W)
    (context : HandlerContext) (flow : Flow W) (fuel : ℕ) (w : W)
    → tf.handler context ≡ handler_of host flow
    → CollisionFree host f
    → drive platform fuel tf f context [] w ≡ direct host platform fuel flow w
drive-eq-direct host platform f tf context flow fuel w runs free =
    drive-RunsAs host platform f tf context flow fuel w
      (λ steps w. ap (λ h. seen (h (at host f steps [] w))) runs) free
