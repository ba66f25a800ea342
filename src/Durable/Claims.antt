-- ===== src/Durable/Claims.antt =====
-- The steps of sdk-ts/src/step.ts do not see the agents that have run.
use triggerlink.Prelude.{◌≡◌, refl, ◌∙◌, Option, none, some, Text, ap, List, ℕ}
use triggerlink.Value.{Value, undefined}
use triggerlink.Execx.{Host}
use triggerlink.Effects.{Outcome, returned, threw, State, Exec, then_do, pure}
use triggerlink.Step.{run, sleep_until, send_event, wait_for_event, enter, answer, interrupt_with}
use triggerlink.Execx.{Opcode}
use triggerlink.Step
use triggerlink.Durable.{
  Attempt, effect_of, Flow, finish, fail, step, wait, Question, sleep_at, sleep_for, send_all,
  wait_on, handler_of, ask,
}

-- an outcome, and the state with other claims
abbrev pub with_claims :
    {W : Type 0} {A : Type 0} → List (Text × ℕ) → Outcome A × State W → Outcome A × State W
with_claims claims (o, s) = (o, record s { claims = claims })

module _ {W : Type 0} (host : Host) (claims : List (Text × ℕ)) where
  then_do-with_claims :
      {A B : Type 0} (k : A → Exec W B) (r : Outcome A × State W)
      → ((v : A) (s : State W) → k v (record s { claims = claims }) ≡ with_claims claims (k v s))
      → then_do (with_claims claims r) k ≡ with_claims claims (then_do r k)
  then_do-with_claims k (returned v, s) same = same v s
  then_do-with_claims k (threw e, s) same = refl

  finish-with_claims :
      (h id : Text) (r : Outcome Value × State W)
      → Step.finish host h id (with_claims claims r) ≡ with_claims claims (Step.finish host h id r)
  unfolding Step.finish
  finish-with_claims h id (returned v, s) = refl
  finish-with_claims h id (threw e, s) = refl

  hit_or-with_claims :
      (h id : Text) (fn : W → Attempt × W) (s : State W) (memo : Option Value)
      → elim memo [
        | some output ↦ (returned output, record s { claims = claims })
        | none ↦ Step.finish host h id (effect_of fn (record s { claims = claims }))
      ]
        ≡ with_claims claims (elim memo [
          | some output ↦ (returned output, s)
          | none ↦ Step.finish host h id (effect_of fn s)
        ])
  hit_or-with_claims h id fn s (some output) = refl
  hit_or-with_claims h id fn s none = finish-with_claims h id (effect_of fn s)

  run-with_claims :
      (id : Text) (fn : W → Attempt × W) (s : State W)
      → run host id (effect_of fn) (record s { claims = claims })
        ≡ with_claims claims (run host id (effect_of fn) s)
  unfolding run enter
  run-with_claims id fn s =
      let (h, memo, s') = enter host id s in hit_or-with_claims h id fn s' memo

  answer-with_claims :
      {A : Type 0} (f : Value → A) (op : Outcome Opcode) (memo : Option Value) (s : State W)
      → answer f op memo (record s { claims = claims }) ≡ with_claims claims (answer f op memo s)
  answer-with_claims f op (some output) s = refl
  answer-with_claims f op none s = refl

  ask-with_claims :
      (id : Text) (question : Question W) (s : State W)
      → ask host id question (record s { claims = claims })
        ≡ with_claims claims (ask host id question s)
  unfolding Step.sleep sleep_until send_event wait_for_event enter
  ask-with_claims id (sleep_at at) s =
      ap (λ r. then_do r (λ _. pure undefined)) (answer-with_claims _ _ _ _)
      ∙ then_do-with_claims (λ _. pure undefined) (sleep_until host id at s) (λ v t. refl)
  ask-with_claims id (sleep_for clock dur_ms) s =
      ap (λ r. then_do r (λ _. pure undefined)) (answer-with_claims _ _ _ _)
      ∙ then_do-with_claims (λ _. pure undefined) (Step.sleep host (clock s.world) id dur_ms s)
          (λ v t. refl)
  ask-with_claims id (send_all es) s = answer-with_claims _ _ _ _
  ask-with_claims id (wait_on opts) s = answer-with_claims _ _ _ _

  pub handler_of-with_claims :
      (flow : Flow W) (s : State W)
      → handler_of host flow (record s { claims = claims })
        ≡ with_claims claims (handler_of host flow s)
  unfolding handler_of
  handler_of-with_claims (finish v) s = refl
  handler_of-with_claims (fail message stack) s = refl
  handler_of-with_claims (step id fn rest) s =
      ap (λ r. then_do r (λ v. handler_of host (rest v))) (run-with_claims id fn s)
      ∙ then_do-with_claims (λ v. handler_of host (rest v)) (run host id (effect_of fn) s)
          (λ v t. handler_of-with_claims (rest v) t)
  handler_of-with_claims (wait id question rest) s =
      ap (λ r. then_do r (λ v. handler_of host (rest v))) (ask-with_claims id question s)
      ∙ then_do-with_claims (λ v. handler_of host (rest v)) (ask host id question s)
          (λ v t. handler_of-with_claims (rest v) t)

-- So they leave what is claimed.
module _ {W : Type 0} (host : Host) where
  pub run-claims :
      (id : Text) (fn : W → Attempt × W) (s : State W)
      → (run host id (effect_of fn) s).1.claims ≡ s.claims
  run-claims id fn s = ap (λ r. r.1.claims) (run-with_claims host s.claims id fn s)

  pub ask-claims :
      (id : Text) (question : Question W) (s : State W)
      → (ask host id question s).1.claims ≡ s.claims
  ask-claims id question s = ap (λ r. r.1.claims) (ask-with_claims host s.claims id question s)
