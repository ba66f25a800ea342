-- ===== src/Durable/Simulation.antt =====
-- When a function over the steps of sdk-ts/src/step.ts runs as a part of a workflow.
use triggerlink.Prelude.{List, ℕ, ◌≡◌, refl, ◌∙◌, ap, Text}
use triggerlink.Value.{Value}
use triggerlink.Execx.{Host, Opcode, error, other, interrupt}
use triggerlink.Effects.{Outcome, returned, threw, State, Exec, ◌>>=◌, pure, lift, then_do}
use triggerlink.Step.{run, err_message, err_stack}
use triggerlink.Serve.{opcode_of}
use triggerlink.Durable.{Flow, fail, step, handler_of, effect_of}
use triggerlink.Durable.Claims.{run-claims}
use triggerlink.Durable.Effect.{IsPlain, IsEffect, attempt, run-attempt}

-- what a callback shows of a call
abbrev pub seen : {W : Type 0} → Outcome Value × State W → Opcode × W
seen (result, s) = (opcode_of result, s.world)

module _ (host : Host) {W : Type 0} where
  -- on with a value, or the end of the handler by an error
  abbrev pub or_fail : {A : Type 0} → Outcome A → (A → Flow W) → Flow W
  or_fail (returned a) rest = rest a
  or_fail (threw e) rest = fail (err_message e) (err_stack host e)

  -- Two rests of a handler that callbacks do not tell apart, from states with the claims given.
  abbrev pub AreAlike : {A : Type 0} → List (Text × ℕ) → (after before : A → Exec W Value) → Type 0
  AreAlike {A} claims after before =
      (a : A) (s : State W) → s.claims ≡ claims → seen (after a s) ≡ seen (before a s)

  -- Before any rest that runs as a workflow, `m` runs as the part `part` of one, and leaves the claims.
  abbrev pub Simulates : {A : Type 0} → Exec W A → ((A → Flow W) → Flow W) → Type 0
  Simulates {A} m part =
      (claims : List (Text × ℕ)) (after : A → Exec W Value) (rest : A → Flow W)
      → AreAlike claims after (λ a. handler_of host (rest a))
      → (s : State W) → s.claims ≡ claims
      → seen ((m >>= after) s) ≡ seen (handler_of host (part rest) s)

  pub pure-Simulates : {A : Type 0} (a : A) → Simulates (pure a) (λ rest. rest a)
  pure-Simulates a claims after rest same s own = same a s own

  pub lift-Simulates : {A : Type 0} (o : Outcome A) → IsPlain o → Simulates (lift o) (or_fail o)
  unfolding handler_of opcode_of err_message err_stack
  lift-Simulates (returned a) plain claims after rest same s own = same a s own
  lift-Simulates (threw (error message stack)) plain claims after rest same s own = refl
  lift-Simulates (threw (other shown)) plain claims after rest same s own = refl
  lift-Simulates (threw (interrupt op)) plain claims after rest same s own = absurd plain

  pub seen-then_do :
      {A : Type 0} (claims : List (Text × ℕ)) (after before : A → Exec W Value)
      → AreAlike claims after before
      → (r : Outcome A × State W) → r.1.claims ≡ claims
      → seen (then_do r after) ≡ seen (then_do r before)
  seen-then_do claims after before same (returned a, s) own = same a s own
  seen-then_do claims after before same (threw e, s) own = refl

  pub run-Simulates :
      (id : Text) (m : Exec W Value)
      → IsEffect m
      → Simulates (run host id m) (step id (attempt host m))
  unfolding handler_of
  run-Simulates id m effect claims after rest same s own =
      ap (λ r. seen (then_do r after)) (run-attempt host id m s effect)
      ∙ seen-then_do claims after (λ v. handler_of host (rest v)) same
          (run host id (effect_of (attempt host m)) s) (run-claims host id (attempt host m) s ∙ own)

  then_do_assoc :
      {A B : Type 0} (k : A → Exec W B) (after : B → Exec W Value) (r : Outcome A × State W)
      → then_do (then_do r k) after ≡ then_do r (λ a. k a >>= after)
  then_do_assoc k after (returned a, s) = refl
  then_do_assoc k after (threw e, s) = refl

  pub bind-Simulates :
      {A B : Type 0} (m : Exec W A) (k : A → Exec W B) (part : (A → Flow W) → Flow W)
      (later : A → (B → Flow W) → Flow W)
      → Simulates m part
      → ((a : A) → Simulates (k a) (later a))
      → Simulates (m >>= k) (λ rest. part (λ a. later a rest))
  bind-Simulates m k part later first then claims after rest same s own =
      ap seen (then_do_assoc k after (m s))
      ∙ first claims (λ a. k a >>= after) (λ a. later a rest)
          (λ a t mine. then a claims after rest same t mine) s own
