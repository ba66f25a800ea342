-- ===== src/Agent/Names.antt =====
-- The names of agents in sdk-ts/src/agent.ts: the step ids that they make, and `claimedNames`.
use triggerlink.Prelude.{
  ℕ, ◌≡◌, ◌≢◌, ◌∙◌, sym, refl, ap, arith, Option, none, some, [], ◌∷◌, ◌++◌, All, Text, txt, lookup,
  nat_eq, false, append_cancel, append-nil, lookup-insert_self,
}
use triggerlink.Execx.{Host, Thrown}
use triggerlink.Effects.{returned, threw, State}
use triggerlink.Agent.Options.{Agent}
use triggerlink.Agent.Options.Creation.{IsName, IsNot}
use triggerlink.Agent.Memo.{AgentResult, agent_error}
use triggerlink.Agent.Replay.{run_agent-Replays}
use triggerlink.Agent.Loop.{run_agent, claim, take_claim, step_id, name_taken}

-- what follows the name
abbrev suffix : Option Text → Text
suffix none = []
suffix (some tool_name) = b'/' ∷ tool_name

step_id-suffix :
    (name : Text) (which : Option Text)
    → step_id name which ≡ txt "agent/" ++ (name ++ suffix which)
step_id-suffix name none = rw (append-nil name)
step_id-suffix name (some tool_name) = refl

suffix_injective : (v w : Option Text) → suffix v ≡ suffix w → v ≡ w
suffix_injective none none e = refl
suffix_injective none (some t) e = absurd (cc)
suffix_injective (some s) none e = absurd (cc)
suffix_injective (some s) (some t) e = cc

suffix-head : (w : Option Text) (d : ℕ) (s : Text) → suffix w ≡ d ∷ s → d ≡ b'/'
suffix-head none d s e = absurd (cc)
suffix-head (some t) d s e = cc

split_name :
    (m n : Text) (v w : Option Text)
    → All (IsNot b'/') m
    → All (IsNot b'/') n
    → m ++ suffix v ≡ n ++ suffix w
    → (m ≡ n) × (v ≡ w)
split_name [] [] v w p q e = (refl, suffix_injective v w e)
split_name [] (d ∷ n) v w p (q, qs) e = absurd (q (suffix-head v d (n ++ suffix w) e))
split_name (c ∷ m) [] v w (p, ps) q e = absurd (p (suffix-head w c (m ++ suffix v) (sym e)))
split_name (c ∷ m) (d ∷ n) v w (p, ps) (q, qs) e =
    let (names, which) = split_name m n v w ps qs (cc) in (cc, which)

-- Two agents whose names `createAgent` accepts use a step id in common only where they have one name, and
-- then for the model in both, or for the same tool.
pub step_id_injective :
    (m n : Text) (v w : Option Text)
    → IsName m
    → IsName n
    → step_id m v ≡ step_id n w
    → (m ≡ n) × (v ≡ w)
step_id_injective m n v w p q e =
    split_name m n v w p.1 q.1
      (append_cancel (txt "agent/") _ _ (sym (step_id-suffix m v) ∙ e ∙ step_id-suffix n w))

refused-threw :
    (host : Host) (name why : Text) → (e : Thrown) × (agent_error host name why ≡ threw e)
unfolding agent_error
refused-threw host name why = (_, refl)

nat_eq-other : (m n : ℕ) → m ≢ n → nat_eq m n ≡ false
nat_eq-other m n differs = ground (arith, differs)

module _ (host : Host) {W : Type 0} where
  take_claim-other :
      (agent : Agent W) (other : ℕ) (s : State W)
      → other ≢ agent.identity
      → (e : Thrown) × (take_claim host agent (some other) s ≡ (threw e, s))
  take_claim-other agent other s differs =
      let (e, refused) = refused-threw host agent.opts.name name_taken in
      (e, rw (nat_eq-other other agent.identity differs) (ap (λ o. (o, s)) refused))

  -- After a run that returned, `run` of another agent of the same name throws in that call of the
  -- function, and changes nothing.
  pub run_agent-other :
      (agent other : Agent W) (input again : Text) (r : AgentResult) (s s' : State W)
      → run_agent host agent input s ≡ (returned r, s')
      → agent.opts.name ≡ other.opts.name
      → agent.identity ≢ other.identity
      → (e : Thrown) × (run_agent host other again s' ≡ (threw e, s'))
  unfolding run_agent claim
  run_agent-other agent other input again r s s' ran one_name differs =
      let (same, world, claims) =
        run_agent-Replays host agent.opts.generate agent.opts.redact agent.opts.on_response
          (λ def. def) agent input r s s' ran in
      let taken : lookup other.opts.name s'.claims ≡ some agent.identity =
        rw (claims, sym one_name, lookup-insert_self) in
      let (e, refused) = take_claim-other other agent.identity s' differs in
      (e, rw (taken, refused))
