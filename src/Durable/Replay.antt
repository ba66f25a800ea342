-- ===== src/Durable/Replay.antt =====
-- Where a call of the handler from the top stands after the completed steps (sdk-ts/src/step.ts).
use triggerlink.Prelude.{
  ℕ, ◌+◌, ◌<◌, ◌≤◌, ◌≡◌, ◌≢◌, refl, sym, ◌∙◌, subst, none, some, List, [], ◌∷◌, arith, Text, txt,
  ==_iff, ==_refl, lookup, insert, lookup-insert, lookup-insert_self, keys, All, All-map,
  All-keys-insert, or_else,
}
use triggerlink.Value.{Value}
use triggerlink.Execx.{Host, StepState, ExecCtx, hash_input, next_hash}
use triggerlink.Execx.Keys.{CollisionFree, hash_input_injective}
use triggerlink.Effects.{State}
use triggerlink.Step.{run, sleep_until, send_event, wait_for_event, enter, memo_of, completed}
use triggerlink.Step
use triggerlink.Durable.{
  Flow, step, wait, Attempt, Question, sleep_at, sleep_for, send_all, wait_on, deliver, memo,
  handler_of,
}

abbrev pub Counters : Type 0
Counters = List (Text × ℕ)

abbrev pub count : Text → Counters → ℕ
count id c = or_else (lookup id c) 0

module _ (host : Host) (f : Text) where
  abbrev pub context : List (Text × StepState) → Counters → ExecCtx
  context steps c = record { function_id = f; steps = steps; counters = c }

  -- the key of the next call with a step id, and the counters after it
  abbrev pub key : Text → Counters → Text
  key id c = host.sha256_hex (hash_input f id (count id c))

  abbrev pub bump : Text → Counters → Counters
  bump id c = insert id (count id c + 1) c

  next_hash-context :
      (id : Text) (steps : List (Text × StepState)) (c : Counters)
      → next_hash host id (context steps c) ≡ (key id c, context steps (bump id c))
  unfolding next_hash
  next_hash-context id steps c = refl

  -- keys that have been handed out
  abbrev pub IsPast : Counters → Text → Type 0
  IsPast c h = (id : Text) × (n : ℕ) × (n < count id c) × (h ≡ host.sha256_hex (hash_input f id n))

  count-bump : (id other : Text) (c : Counters) → count other c ≤ count other (bump id c)
  count-bump id other c = rw lookup-insert (ground (arith, ==_iff id other))

  count-bump_self : (id : Text) (c : Counters) → count id (bump id c) ≡ count id c + 1
  count-bump_self id c = rw lookup-insert_self

  IsPast-bump : (id : Text) (c : Counters) (h : Text) → IsPast c h → IsPast (bump id c) h
  IsPast-bump id c h (other, n, less, e) = (other, n, omega (arith, count-bump id other c), e)

  key-IsPast : (id : Text) (c : Counters) → IsPast (bump id c) (key id c)
  key-IsPast id c = (id, count id c, omega (arith, count-bump_self id c), refl)

  key-ne-past :
      (id : Text) (c : Counters) (h : Text) → CollisionFree host f → IsPast c h → key id c ≢ h
  key-ne-past id c h free (other, n, less, e) same =
      let (ids, numbers) =
        hash_input_injective f id other (count id c) n (free id other (count id c) n (same ∙ e)) in
      absurd (omega (arith, numbers, subst (λ t. n < count t c) (sym ids) less))

  -- The next key is not among the memos.
  pub lookup-key :
      (id : Text) (c : Counters) (steps : List (Text × StepState))
      → CollisionFree host f
      → All (IsPast c) (keys steps)
      → lookup (key id c) steps ≡ none
  unfolding lookup
  lookup-key id c [] free past = refl
  lookup-key id c ((h, m) ∷ steps) free (p, past) = ground (
    arith,
    lookup-key id c steps free past,
    ==_iff h (key id c),
    λ (e : key id c ≡ h). key-ne-past id c h free p e,
  )

  -- The memos after one more completed step.
  pub keys-insert-IsPast :
      (id : Text) (c : Counters) (m : StepState) (steps : List (Text × StepState))
      → All (IsPast c) (keys steps)
      → All (IsPast (bump id c)) (keys (insert (key id c) m steps))
  keys-insert-IsPast id c m steps past =
      All-keys-insert (IsPast (bump id c)) (key id c) m steps (key-IsPast id c)
        (All-map _ _ (IsPast-bump id c) (keys steps) past)

lookup-insert_fresh :
    (h k : Text) (m : StepState) (steps : List (Text × StepState)) (v : Value)
    → lookup h steps ≡ none
    → completed (lookup k steps) ≡ some v
    → completed (lookup k (insert h m steps)) ≡ some v
lookup-insert_fresh h k m steps v fresh hit = rw lookup-insert (ground (arith, ==_iff h k))

-- With the memos `steps` a call from the top reaches a rest of the workflow, with counters.
pub data Reaches {W : Type 0} (host : Host) (f : Text) (root : Flow W)
    (steps : List (Text × StepState)) : Flow W → Counters → Type 0 where
  start : Reaches host f root steps root []
  resume :
      {id : Text} {question : Question W} {rest : Value → Flow W} {c : Counters} {v : Value}
      → Reaches host f root steps (wait id question rest) c
      → completed (lookup (key host f id c) steps) ≡ some v
      → Reaches host f root steps (rest (deliver question v)) (bump host f id c)
  pass :
      {id : Text} {fn : W → Attempt × W} {rest : Value → Flow W} {c : Counters} {v : Value}
      → Reaches host f root steps (step id fn rest) c
      → completed (lookup (key host f id c) steps) ≡ some v
      → Reaches host f root steps (rest v) (bump host f id c)

module _ {W : Type 0} (host : Host) (f : Text) where
  abbrev pub at : List (Text × StepState) → Counters → W → State W
  at steps c w = record { ec = context host f steps c; claims = []; world = w }

  step_hit :
      (id : Text) (fn : W → Attempt × W) (rest : Value → Flow W) (steps : List (Text × StepState))
      (c : Counters) (w : W) (v : Value)
      → completed (lookup (key host f id c) steps) ≡ some v
      → handler_of host (step id fn rest) (at steps c w)
        ≡ handler_of host (rest v) (at steps (bump host f id c) w)
  unfolding handler_of run enter next_hash memo_of lookup insert
  step_hit id fn rest steps c w v hit = rw hit

  wait_hit :
      (id : Text) (question : Question W) (rest : Value → Flow W) (steps : List (Text × StepState))
      (c : Counters) (w : W) (v : Value)
      → completed (lookup (key host f id c) steps) ≡ some v
      → handler_of host (wait id question rest) (at steps c w)
        ≡ handler_of host (rest (deliver question v)) (at steps (bump host f id c) w)
  unfolding handler_of Step.sleep sleep_until send_event wait_for_event enter next_hash memo_of
      lookup insert
  wait_hit id (sleep_at t) rest steps c w v hit = rw hit
  wait_hit id (sleep_for clock dur_ms) rest steps c w v hit = rw hit
  wait_hit id (send_all es) rest steps c w v hit = rw hit
  wait_hit id (wait_on opts) rest steps c w v hit = rw hit

  -- Replay: the steps that are passed have no effect.
  pub handler_of-Reaches :
      {root : Flow W} {steps : List (Text × StepState)} {flow : Flow W} {c : Counters} (w : W)
      → Reaches host f root steps flow c
      → handler_of host root (at steps [] w) ≡ handler_of host flow (at steps c w)
  handler_of-Reaches w start = refl
  handler_of-Reaches w (pass {id} {fn} {rest} {c} {v} r hit) =
      handler_of-Reaches w r ∙ step_hit id fn rest _ c w v hit
  handler_of-Reaches w (resume {id} {question} {rest} {c} {v} r hit) =
      handler_of-Reaches w r ∙ wait_hit id question rest _ c w v hit

  -- A new memo leaves what has been reached.
  pub Reaches-insert :
      {root : Flow W} {steps : List (Text × StepState)} {flow : Flow W} {c : Counters} (h : Text)
      (m : StepState)
      → lookup h steps ≡ none
      → Reaches host f root steps flow c
      → Reaches host f root (insert h m steps) flow c
  Reaches-insert h m fresh start = start
  Reaches-insert {steps} h m fresh (pass {id} {c} {v} r hit) =
      pass (Reaches-insert h m fresh r)
        (lookup-insert_fresh h (key host f id c) m steps v fresh hit)
  Reaches-insert {steps} h m fresh (resume {id} {c} {v} r hit) =
      resume (Reaches-insert h m fresh r)
        (lookup-insert_fresh h (key host f id c) m steps v fresh hit)

  -- A question that is answered is passed by the next call.
  pub Reaches-answered :
      {root : Flow W} {id : Text} {question : Question W} {rest : Value → Flow W}
      {steps : List (Text × StepState)} {c : Counters} (v : Value)
      → lookup (key host f id c) steps ≡ none
      → Reaches host f root steps (wait id question rest) c
      → Reaches host f root
          (insert (key host f id c) (memo id v) steps)
          (rest (deliver question v))
          (bump host f id c)
  Reaches-answered {id} {steps} {c} v fresh r =
      resume (Reaches-insert _ _ fresh r) (rw (lookup-insert_self, ==_refl (txt "completed")))

  -- A step that completes is passed by the next call.
  pub Reaches-complete :
      {root : Flow W} {id : Text} {fn : W → Attempt × W} {rest : Value → Flow W}
      {steps : List (Text × StepState)} {c : Counters} (v : Value)
      → lookup (key host f id c) steps ≡ none
      → Reaches host f root steps (step id fn rest) c
      → Reaches host f root
          (insert
            (key host f id c)
            (record { id = id; status = txt "completed"; output = v })
            steps)
          (rest v)
          (bump host f id c)
  Reaches-complete {id} {steps} {c} v fresh r =
      pass (Reaches-insert _ _ fresh r) (rw (lookup-insert_self, ==_refl (txt "completed")))
