-- ===== src/Durable/Effect.antt =====
-- Functions of steps that touch nothing of the SDK, only the world of the application: what such a function
-- does when it is called once, and the step (sdk-ts/src/step.ts) that calls it.
use triggerlink.Prelude.{◌≡◌, refl, sym, ◌∙◌, Option, none, some, [], Text, ap, subst}
use triggerlink.Value.{Value}
use triggerlink.Execx.{Host, Thrown, interrupt, error, other}
use triggerlink.Effects.{Outcome, returned, threw, State, Exec, ◌>>=◌, pure, lift, then_do}
use triggerlink.Step.{run, finish, enter, as_interrupt, err_message, err_stack}
use triggerlink.Durable.{Attempt, done, failed, effect_of, outcome_of}

-- It is no interrupt: those only the primitives of the SDK throw.
abbrev pub IsError : Thrown → Type 0
IsError (interrupt op) = ⊥
IsError (error message stack) = Unit
IsError (other shown) = Unit

-- It returns, or throws an error.
abbrev pub IsPlain {ℓ} : {A : Type ℓ} → Outcome A → Type 0
IsPlain (returned a) = Unit
IsPlain (threw e) = IsError e

module _ {W : Type 0} where
  -- a state of which only the world counts
  abbrev pub outside : W → State W
  outside w = record {
    ec = record { function_id = []; steps = []; counters = [] };
    claims = [];
    world = w;
  }

  -- an outcome, and the world in place of the state's
  abbrev pub settled : {A : Type 0} → State W → Outcome A × State W → Outcome A × State W
  settled s (o, t) = (o, record s { world = t.world })

  -- It reads and writes the world only.
  abbrev pub IsEffect : {A : Type 0} → Exec W A → Type 0
  IsEffect m = (s : State W) → (m s ≡ settled s (m (outside s.world))) × IsPlain (m s).0

  abbrev pub attempted : Host → Outcome Value × State W → Attempt × W
  attempted host (returned v, t) = (done v, t.world)
  attempted host (threw e, t) = (failed (err_message e) (err_stack host e), t.world)

  -- one call
  abbrev pub attempt : Host → Exec W Value → W → Attempt × W
  attempt host m w = attempted host (m (outside w))

  pub lift-IsEffect : {A : Type 0} (o : Outcome A) → IsPlain o → IsEffect (lift o)
  lift-IsEffect o plain s = (refl, plain)

  pub pure-IsEffect : {A : Type 0} (a : A) → IsEffect (pure a)
  pure-IsEffect a s = (refl, tt)

  then_do-IsEffect :
      {A B : Type 0} (k : A → Exec W B) (o : Outcome A) (s t : State W)
      → ((a : A) → IsEffect (k a))
      → IsPlain o
      → (then_do (settled s (o, t)) k ≡ settled s (then_do (settled (outside s.world) (o, t)) k))
        × IsPlain (then_do (settled s (o, t)) k).0
  then_do-IsEffect k (returned a) s t effects plain = effects a (record s { world = t.world })
  then_do-IsEffect k (threw (error message stack)) s t effects plain = (refl, tt)
  then_do-IsEffect k (threw (other shown)) s t effects plain = (refl, tt)
  then_do-IsEffect k (threw (interrupt op)) s t effects plain = absurd plain

  pub bind-IsEffect :
      {A B : Type 0} (m : Exec W A) (k : A → Exec W B)
      → IsEffect m
      → ((a : A) → IsEffect (k a))
      → IsEffect (m >>= k)
  bind-IsEffect m k effect effects s =
      let (within, plain) = effect s in
      let (alone, plain') = effect (outside s.world) in
      let (same, fine) =
        then_do-IsEffect k (m (outside s.world)).0 s (m (outside s.world)).1 effects plain' in
      (
        ap (λ r. then_do r k) within ∙ same ∙ ap (λ r. settled s (then_do r k)) (sym alone),
        subst (λ r. IsPlain (then_do r k).0) (sym within) fine,
      )

-- A step that calls such a function is a step of a workflow.
module _ {W : Type 0} (host : Host) where
  finish-attempted :
      (h id : Text) (o : Outcome Value) (s t : State W)
      → IsPlain o
      → finish host h id (settled s (o, t))
        ≡ finish host h id
            (let (a, w) = attempted host (o, t) in (outcome_of a, record s { world = w }))
  unfolding finish as_interrupt err_message err_stack
  finish-attempted h id (returned v) s t plain = refl
  finish-attempted h id (threw (error message stack)) s t plain = refl
  finish-attempted h id (threw (other shown)) s t plain = refl
  finish-attempted h id (threw (interrupt op)) s t plain = absurd plain

  -- both runs, once the memo has been looked up
  hit_or-attempted :
      (h id : Text) (m : Exec W Value) (s : State W) (memo : Option Value)
      → IsEffect m
      → elim memo [ some output ↦ (returned output, s) | none ↦ finish host h id (m s) ]
        ≡ elim memo [
          | some output ↦ (returned output, s)
          | none ↦ finish host h id (effect_of (attempt host m) s)
        ]
  hit_or-attempted h id m s (some output) effect = refl
  hit_or-attempted h id m s none effect =
      let (within, plain) = effect s in
      let (alone, plain') = effect (outside s.world) in
      ap (finish host h id) within
      ∙ finish-attempted h id (m (outside s.world)).0 s (m (outside s.world)).1 plain'

  pub run-attempt :
      (id : Text) (m : Exec W Value) (s : State W)
      → IsEffect m
      → run host id m s ≡ run host id (effect_of (attempt host m)) s
  unfolding run
  run-attempt id m s effect =
      let (h, memo, s') = enter host id s in hit_or-attempted h id m s' memo effect
