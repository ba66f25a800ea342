-- ===== src/Agent/Options/Creation.antt =====
-- `createAgent` of sdk-ts/src/agent.ts: what it accepts.
use triggerlink.Prelude.{
  ℕ, zero, suc, ◌≤◌, ◌≡◌, ◌≢◌, refl, arith, ◌↔◌, inl, inr, Option, none, some, Bool, true, false,
  [], ◌∷◌, All, Text, is_empty, Option-cases, if◌then◌else◌, ◌||◌, not, or_else,
}
use triggerlink.Value.{Number, nat, neg, nan, infinite}
use triggerlink.Execx.{Host, Thrown}
use triggerlink.Effects.{Outcome, returned, threw}
use triggerlink.Agent.Options.{
  AgentOpts, Agent, create_agent, has_char, positive, check_tokens, with_limit, check_limits,
}

abbrev pub IsPositive : Number → Type 0
IsPositive n = (k : ℕ) × (n ≡ nat (suc k))

-- What an absent option says, or one that is a positive integer.
abbrev pub IsLimit : Option Number → Type 0
IsLimit none = Unit {0}
IsLimit (some n) = IsPositive n

abbrev pub IsNot : ℕ → ℕ → Type 0
IsNot c d = d ≢ c

-- A name that can stand in a step id: it has a character, and no "/".
abbrev pub IsName : Text → Type 0
IsName name = (name ≢ []) × All (IsNot b'/') name

pub record IsAccepted {W : Type 0} (opts : AgentOpts W) : Type 0 where
  pub name : IsName opts.name
  pub model : opts.has_model ≡ true
  pub max_iterations : IsLimit opts.max_iterations
  pub max_output_tokens : IsLimit opts.max_output_tokens

threw-ne-returned : {A : Type 0} {e : Thrown} {a : A} → threw e ≢ returned a
threw-ne-returned p = cc

-- a guard that throws has let pass what returns
past_guard :
    {A : Type 0} (b : Bool) (x : Thrown) (o : Outcome A) (a : A)
    → (if b then threw x else o) ≡ returned a
    → (b ≡ false) × (o ≡ returned a)
past_guard true x o a e = absurd (threw-ne-returned e)
past_guard false x o a e = (refl, e)

is_empty-false : (s : Text) → (is_empty s ≡ false) ↔ (s ≢ [])
is_empty-false s = ground arith

has_char-false : (c : ℕ) (s : Text) → has_char c s ≡ false → All (IsNot c) s
unfolding has_char
has_char-false c [] e = tt
has_char-false c (d ∷ s) e = (ground (arith, e), has_char-false c s (ground (arith, e)))

has_char-All : (c : ℕ) (s : Text) → All (IsNot c) s → has_char c s ≡ false
unfolding has_char
has_char-All c [] h = refl
has_char-All c (d ∷ s) (p, h) = ground (arith, p, has_char-All c s h)

positive-IsPositive : (n : Number) (k : ℕ) → positive n ≡ some k → IsPositive n × (1 ≤ k)
positive-IsPositive nan k e = absurd (cc)
positive-IsPositive (infinite b) k e = absurd (cc)
positive-IsPositive (nat zero) k e = absurd (cc)
positive-IsPositive (nat (suc n)) k e = ((n, refl), ground (arith, e))
positive-IsPositive (neg n) k e = absurd (cc)

positive-IsLimit :
    (o : Option Number) (k : ℕ) → positive (or_else o (nat 10)) ≡ some k → IsLimit o × (1 ≤ k)
positive-IsLimit none k e = (tt, ground (arith, e))
positive-IsLimit (some n) k e = positive-IsPositive n k e

limit_of : (o : Option Number) → IsLimit o → (k : ℕ) × (positive (or_else o (nat 10)) ≡ some k)
limit_of none h = (10, refl)
limit_of (some n) (k, e) = (suc k, rw e)

module _ (host : Host) {W : Type 0} where
  check_tokens-returned :
      (o : Option Number) (agent made : Agent W)
      → check_tokens host o (returned agent) ≡ returned made
      → IsLimit o × (agent ≡ made)
  check_tokens-returned none agent made e = (tt, cc)
  check_tokens-returned (some n) agent made e = elim (Option-cases (positive n)) [
    | inl bad ↦ absurd (threw-ne-returned (rw (bad, check_tokens) at e))
    | inr (k, good) ↦ ((positive-IsPositive n k good).0, cc (rw (good, check_tokens) at e))
  ]

  check_tokens-IsLimit :
      (o : Option Number) (agent : Agent W)
      → IsLimit o
      → check_tokens host o (returned agent) ≡ returned agent
  check_tokens-IsLimit none agent h = refl
  check_tokens-IsLimit (some n) agent (k, e) = rw e

  check_limits-returned :
      (identity : ℕ) (opts : AgentOpts W) (o : Option ℕ) (tokens : Option Number) (made : Agent W)
      → check_limits host (with_limit host identity opts o) tokens ≡ returned made
      → (k : ℕ) × (o ≡ some k)
        × IsLimit tokens
        × (record { identity = identity; opts = opts; max_iterations = k } ≡ made)
  check_limits-returned identity opts none tokens made e = absurd (cc)
  check_limits-returned identity opts (some k) tokens made e =
      let (limit, same) = check_tokens-returned tokens _ made e in (k, refl, limit, same)

  -- `createAgent` makes an agent exactly of the options that have a name without "/", a model, and
  -- limits that are positive integers where they are given; it throws on all others.
  pub create_agent_iff :
      (identity : ℕ) (opts : AgentOpts W)
      → ((agent : Agent W) × (create_agent host identity opts ≡ returned agent)) ↔ IsAccepted opts
  unfolding create_agent
  create_agent_iff identity opts = (
    λ made.
        let (named, e) =
          past_guard (is_empty opts.name || has_char b'/' opts.name) _ _ made.0 made.1 in
        let (modelled, e') = past_guard (not opts.has_model) _ _ made.0 e in
        let (k, limit, tokens, same) = check_limits-returned identity opts _ _ made.0 e' in
        record {
          name = (
            (is_empty-false opts.name).0 (ground (arith, named)),
            has_char-false b'/' opts.name (ground (arith, named)),
          );
          model = ground (arith, modelled);
          max_iterations = (positive-IsLimit opts.max_iterations k limit).0;
          max_output_tokens = tokens;
        },
    λ ok.
        let (k, limit) = limit_of opts.max_iterations ok.max_iterations in
        (
          record { identity = identity; opts = opts; max_iterations = k },
          rw
              (
                (is_empty-false opts.name).1 ok.name.0,
                has_char-All b'/' opts.name ok.name.1,
                ok.model,
                limit,
              )
              (check_tokens-IsLimit opts.max_output_tokens _ ok.max_output_tokens),
        ),
  )
