-- ===== src/Effects.antt =====
-- How an asynchronous function of the application runs, one call at a time: it reads and writes the
-- execution context and the world outside, and returns or throws. What was written before a throw
-- stays written.
use triggerlink.Prelude.{ℕ, Text, some, List}
use triggerlink.Execx.{Host, Thrown, error, ExecCtx}

pub data Outcome {ℓ} (A : Type ℓ) : Type ℓ where
  returned : A → Outcome A
  threw : Thrown → Outcome A

-- `throw new Error(message)`
abbrev pub new_error : Host → Text → Thrown
new_error host message = error message (some (host.stack message))

-- `claims` is what agent.ts keeps for the step tool of the call: the agents that have run, by name.
pub record State {ℓ} (W : Type ℓ) : Type ℓ where
  pub ec : ExecCtx
  pub claims : List (Text × ℕ)
  pub world : W

abbrev pub Exec {ℓ} : Type ℓ → Type ℓ → Type ℓ
Exec W A = State W → Outcome A × State W

module _ {ℓ} {W A B : Type ℓ} where
  abbrev pub then_do : Outcome A × State W → (A → Exec W B) → Outcome B × State W
  then_do (returned a, s) k = k a s
  then_do (threw e, s) k = (threw e, s)

  infixl 5 ◌>>=◌ ◌>>◌
  abbrev pub ◌>>=◌ : Exec W A → (A → Exec W B) → Exec W B
  ◌>>=◌ m k s = then_do (m s) k

  abbrev pub ◌>>◌ : Exec W A → Exec W B → Exec W B
  m >> n = m >>= λ _. n

module _ {ℓ} {W A : Type ℓ} where
  abbrev pub pure : A → Exec W A
  pure a s = (returned a, s)

  abbrev pub raise : Thrown → Exec W A
  raise e s = (threw e, s)

  -- a computation with no effect, which may throw
  abbrev pub lift : Outcome A → Exec W A
  lift o s = (o, s)
