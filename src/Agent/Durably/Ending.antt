-- ===== src/Agent/Durably/Ending.antt =====
-- The workflow of an agent's calls ends as the agent's conversation does (sdk-ts/src/agent.ts).
use triggerlink.Prelude.{
  ℕ, suc, ◌+◌, ◌≡◌, refl, sym, ◌∙◌, ap, subst, arith, Option, some, List, [], ◌∷◌, Text, txt,
}
use triggerlink.Value.{Value, undefined, prop}
use triggerlink.Execx.{Host}
use triggerlink.Effects.{Outcome, returned, threw, State, Exec}
use triggerlink.Durable.{Platform, Flow, step, Attempt, done, failed}
use triggerlink.Durable.Effect.{attempt, attempted, outside}
use triggerlink.Durable.Simulation.{or_fail}
use triggerlink.Durable.Completing.{Completes, passed, retried}
use triggerlink.Agent.Options.{AgentOpts}
use triggerlink.Agent.Memo.{Progress, add_record, key_of}
use triggerlink.Agent.Loop.{tool_call, found_tool, step_id, record_of}
use triggerlink.Agent.Finding.{found_tool-returned}
use triggerlink.Agent.Durably.{tools_flow}
use triggerlink.Agent.Durably.Conversation.{Succeeds, at_last, again, Uses, nothing, use_tool}

abbrev payload : {W : Type 0} → Attempt × W → Value × W
payload (done v, w) = (v, w)
payload (failed message stack, w) = (undefined, w)

module _ (host : Host) {W : Type 0} (platform : Platform W) where
  abbrev Ends : Flow W → W → ℕ → Value → W → Type 0
  Ends = Completes host platform

  pub step-Succeeds :
      {id : Text} {m : Exec W Value} {rest : Value → Flow W} {w w' u : W} {n k : ℕ} {v r : Value}
      → Succeeds m w n v w'
      → Ends (rest v) w' k r u
      → Ends (step id (attempt host m) rest) w (n + k) r u
  step-Succeeds {id} {m} {rest} {w} {u = u} {k = k} {r = r} (at_last e) later =
      subst (λ x. Ends (step id (attempt host m) rest) w x r u) (omega arith)
        (passed (ap (attempted host) e) later)
  step-Succeeds {id} {m} {rest} {w} {u = u} {k = k} {r = r} (again {n = n} e more) later =
      subst (λ x. Ends (step id (attempt host m) rest) w x r u) (omega arith)
        (retried (ap (attempted host) e) (step-Succeeds more later))

  -- The step succeeds, and what follows it ends.
  abbrev Splits : Exec W Value → (Value → Flow W) → W → ℕ → Value → W → Type 0
  Splits m rest w total r u =
      (n k : ℕ) × (v : Value) × (w' : W) × (n + k ≡ total)
      × Succeeds m w n v w'
      × Ends (rest v) w' k r u

  done-Splits :
      {m : Exec W Value} {rest : Value → Flow W} {w w' u : W} {n : ℕ} {v r : Value}
      (o : Outcome Value × State W)
      → m (outside w) ≡ o
      → attempted host o ≡ (done v, w')
      → Ends (rest v) w' n r u
      → Splits m rest w (suc n) r u
  done-Splits {rest = rest} {u = u} {n = n} {r = r} (returned v, t) e same later = (
    1,
    n,
    v,
    t.world,
    omega arith,
    at_last e,
    subst (λ (x, y). Ends (rest x) y n r u) (sym (ap payload same)) later,
  )
  done-Splits {n = n} (threw x, t) e same later = absurd (let d = ap (λ a. a.0) same in cc)

  failed-Splits :
      {m : Exec W Value} {rest : Value → Flow W} {w w' u : W} {n : ℕ} {message : Text}
      {stack : Option Text} {r : Value} (o : Outcome Value × State W)
      → m (outside w) ≡ o
      → attempted host o ≡ (failed message stack, w')
      → Splits m rest w' n r u
      → Splits m rest w (suc n) r u
  failed-Splits {n = n} (returned v, t) e same later = absurd (let d = ap (λ a. a.0) same in cc)
  failed-Splits {m = m} (threw x, t) e same (n, k, v, w', sum, succeeds, later) =
      let succeeds' = subst (λ y. Succeeds m y n v w') (sym (ap (λ a. a.1) same)) succeeds in
      (suc n, k, v, w', omega (arith, sum), again e succeeds', later)

  pub step-Splits :
      {m : Exec W Value} {id : Text} {fn : W → Attempt × W} {rest : Value → Flow W} {w u : W}
      {n : ℕ} {r : Value}
      → fn ≡ attempt host m
      → Ends (step id fn rest) w n r u
      → Splits m rest w n r u
  step-Splits {m = m} {w = w} same (passed e later) =
      done-Splits (m (outside w)) refl (ap (λ f. f w) (sym same) ∙ e) later
  step-Splits {m = m} {w = w} same (retried e later) =
      failed-Splits (m (outside w)) refl (ap (λ f. f w) (sym same) ∙ e) (step-Splits same later)

  pub or_fail-returned :
      {A : Type 0} (o : Outcome A) (rest : A → Flow W) {w u : W} {n : ℕ} {r : Value}
      → Ends (or_fail host o rest) w n r u
      → (a : A) × (o ≡ returned a) × Ends (rest a) w n r u
  or_fail-returned (returned a) rest ends = (a, refl, ends)
  or_fail-returned (threw e) rest ends = elim ends [ ]

module _ (host : Host) {W : Type 0} (platform : Platform W) (opts : AgentOpts W) where
  pub tools_flow-Uses :
      {i : ℕ} {calls : List Value} {p q : Progress} {w w' u : W} {n k : ℕ} {r : Value}
      (rest : Progress → Flow W)
      → Uses host opts i calls p w n q w'
      → Completes host platform (rest q) w' k r u
      → Completes host platform (tools_flow host opts i calls p rest) w (n + k) r u
  unfolding tools_flow
  tools_flow-Uses {u = u} {k = k} {r = r} rest (nothing {p = p} {w = w}) later =
      subst (λ x. Completes host platform (rest p) w x r u) (omega arith) later
  tools_flow-Uses {i} {p = p} {w = w} {u = u} {k = k'} {r = r} rest
        (use_tool {call = call} {calls = calls} {n = n} {k = k} def found succeeds uses) later =
      let regroup : n + (k + k') ≡ n + k + k' = omega arith in
      rw found (
        subst
          (λ x.
            Completes host platform
              (step (step_id opts.name (some (key_of (prop (txt "toolName") call))))
                (attempt host (tool_call host opts i def call))
                (λ output.
                  tools_flow host opts i calls (add_record (record_of call output) p) rest))
              w x r u)
          regroup (step-Succeeds host platform succeeds (tools_flow-Uses rest uses later)))

  -- The tools are used, and what follows ends.
  abbrev UsesThen : ℕ → List Value → Progress → (Progress → Flow W) → W → ℕ → Value → W → Type 0
  UsesThen i calls p rest w total r u =
      (n k : ℕ) × (q : Progress) × (w' : W) × (n + k ≡ total)
      × Uses host opts i calls p w n q w'
      × Completes host platform (rest q) w' k r u

  pub tools_flow-UsesThen :
      (i : ℕ) (calls : List Value) (p : Progress) (rest : Progress → Flow W) {w u : W} {total : ℕ}
      {r : Value}
      → Completes host platform (tools_flow host opts i calls p rest) w total r u
      → UsesThen i calls p rest w total r u
  unfolding tools_flow
  tools_flow-UsesThen i [] p rest ends = (0, _, p, _, omega arith, nothing, ends)
  tools_flow-UsesThen i (call ∷ calls) p rest ends =
      let (def, found, ends') =
        or_fail-returned host platform (found_tool host opts.name _ _) _ ends in
      let (n, k, output, w', sum, succeeds, later) = step-Splits host platform refl ends' in
      let (n', k', q, w'', sum', uses, last) = tools_flow-UsesThen i calls _ rest later in
      (
        n + n',
        k',
        q,
        w'',
        omega (arith, sum, sum'),
        use_tool def (found_tool-returned host opts _ _ def found) succeeds uses,
        last,
      )
