-- ===== src/Agent/Returning.antt =====
-- Computations of `Exec` that return: what they pass through, and what their results have.
use triggerlink.Prelude.{◌≡◌, refl, ap, subst, sym, ◌∙◌, inl, inr, some, Text}
use triggerlink.Value.{Value}
use triggerlink.Execx.{Host}
use triggerlink.Step.{run}
use triggerlink.Step.Memo.{next_memo, entered, run_cases}
use triggerlink.Effects.{Outcome, returned, threw, State, Exec, then_do, ◌>>=◌, pure, lift}

module _ {W A B : Type 0} where
  then_do-returned :
      (o : Outcome A × State W) (k : A → Exec W B) (b : B) (s : State W)
      → then_do o k ≡ (returned b, s)
      → (a : A) × (t : State W) × (o ≡ (returned a, t)) × (k a t ≡ (returned b, s))
  then_do-returned (returned a, t) k b s e = (a, t, refl, e)
  then_do-returned (threw x, t) k b s e = absurd (cc)

  -- What returns passes through a value and a state in the middle.
  pub bind-returned :
      (m : Exec W A) (k : A → Exec W B) (b : B) (s s' : State W)
      → (m >>= k) s ≡ (returned b, s')
      → (a : A) × (t : State W) × (m s ≡ (returned a, t)) × (k a t ≡ (returned b, s'))
  bind-returned m k b s s' e = then_do-returned (m s) k b s' e

pub returned_injective : {A : Type 0} {a b : A} → returned a ≡ returned b → a ≡ b
returned_injective e = cc

-- what `m` returns, if it returns, has the property
abbrev pub Ensures : {W A : Type 0} → (A → Type 0) → Exec W A → Type 0
Ensures {W} {A} P m = (a : A) (s s' : State W) → m s ≡ (returned a, s') → P a

module _ {W A : Type 0} where
  pub lift-Ensures :
      (P : A → Type 0) (o : Outcome A)
      → ((a : A) → o ≡ returned a → P a)
      → Ensures {W = W} P (lift o)
  lift-Ensures P o h a s s' e = h a (ap (λ r. r.0) e)

  pub pure-Ensures : (P : A → Type 0) (a : A) → P a → Ensures {W = W} P (pure a)
  pure-Ensures P a p b s s' e = subst P (returned_injective (ap (λ r. r.0) e)) p

  pub any-Ensures : (m : Exec W A) → Ensures (λ a. Unit {0}) m
  any-Ensures m a s s' e = tt

module _ {W A B : Type 0} (P : A → Type 0) (Q : B → Type 0) where
  pub bind-Ensures :
      (m : Exec W A) (k : A → Exec W B)
      → Ensures P m
      → ((a : A) → P a → Ensures Q (k a))
      → Ensures Q (m >>= k)
  bind-Ensures m k first rest b s s' e =
      let (a, t, before, after) = bind-returned m k b s s' e in
      rest a (first a s t before) b t s' after

-- where the computation has returned, the value and the state have the property
abbrev pub Ends : {W A : Type 0} → (A → State W → Type 0) → Outcome A × State W → Type 0
Ends {W} {A} R r = (a : A) (s' : State W) → r ≡ (returned a, s') → R a s'

module _ {W B : Type 0} (R : B → State W → Type 0) where
  pub pure-Ends : (b : B) (s : State W) → R b s → Ends R (pure b s)
  pure-Ends b s h c s' e =
      subst (R c) (ap (λ r. r.1) e) (subst (λ c. R c s) (returned_injective (ap (λ r. r.0) e)) h)

  -- a computation after a pure one, and after a step
  pub lift-Ends :
      {A : Type 0} (o : Outcome A) (k : A → Exec W B) (s : State W)
      → ((a : A) → o ≡ returned a → Ends R (k a s))
      → Ends R ((lift o >>= k) s)
  lift-Ends (returned a) k s h b s' e = h a refl b s' e
  lift-Ends (threw x) k s h b s' e = absurd (cc)

  pub run-Ends :
      (host : Host) (id : Text) (fn : Exec W Value) (k : Value → Exec W B) (s : State W)
      → ((v : Value) → next_memo host id s ≡ some v → Ends R (k v (entered host id s)))
      → Ends R ((run host id fn >>= k) s)
  run-Ends host id fn k s h b s' e = elim (run_cases host id fn s) [
    | inl (v, found, how) ↦ h v found b s' (sym (ap (λ r. then_do r k) how) ∙ e)
    | inr (op, missing, how) ↦ absurd (let failed = sym (ap (λ r. then_do r k) how) ∙ e in cc)
  ]

  pub bind-Ends :
      {A : Type 0} (P : A → State W → Type 0) (m : Exec W A) (k : A → Exec W B) (s : State W)
      → Ends P (m s)
      → ((a : A) (t : State W) → P a t → Ends R (k a t))
      → Ends R ((m >>= k) s)
  bind-Ends P m k s first rest b s' e =
      let (a, t, before, after) = bind-returned m k b s s' e in
      rest a t (first a t before) b s' after
