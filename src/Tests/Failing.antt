-- ===== src/Tests/Failing.antt =====
-- Runs that fail, and the function that handles them.
use triggerlink.Prelude.{
  ℕ, suc, ◌≡◌, refl, sym, ◌∙◌, ap, none, some, [], ◌∷◌, ◌++◌, Bool, false, or_else, Bool-cases,
  false≢true, ◌≢◌, inl, inr, Text, txt, ◌==◌, ==_iff, ==_refl, All, append_cancel, arith, insert,
  lookup, IsDistinct,
}
use triggerlink.Value.{null, Value, str, prop, nat}
use triggerlink.Effects.{returned}
use triggerlink.Function.{TriggerFunction}
use triggerlink.Step.{err_message}
use triggerlink.Registry.{registry_of, failure_function, failure_id}
use triggerlink.Registry.Lookup.{expand}
use triggerlink.Manifest.{Manifest, manifest_of, function_entries, function_entry}
use triggerlink.Manifest.Failures.{run_failed, ReadsIds, IsOrdinary}
use triggerlink.Registry.Apart.{==-other, ids}
use triggerlink.Manifest.Handling.{IsHandled, manifest_of-IsHandled}
use triggerlink.Durable.{step, finish, done, failed}
use triggerlink.Durable.Limited.{Policy, completed, gave_up, drive_limited, direct_limited}
use triggerlink.Durable.Limited.Termination.{RunEnds}
use triggerlink.Agent.Durably.{tools_flow, iterations_flow}
use triggerlink.Agent.Durably.Limited.{drive_limited-eq-direct, drive_limited-plan-RunEnds}
use triggerlink.Agent.Durably.Plan.{plan_flow}
use triggerlink.Agent.Memo.{is_llm_memo, assert_llm_memo}
use triggerlink.Agent.Loop.{prepare, llm_call, tool_call}
use triggerlink.Tests.Sample.{host, host-CollisionFree}
use triggerlink.Tests.Stepping.{plain}
use triggerlink.Tests.Talking.{plan, plan-IsSound, planning, silent, context}
use triggerlink.Value.{add}

abbrev policy : ℕ → Policy
policy attempts = record { attempts = attempts; refusal = λ query. none }

drive_limited-eq-direct_example :
    drive_limited silent (policy 4) 9 0 planning (txt "f") context [] 0
    ≡ direct_limited host silent (policy 4) 9 0 (plan_flow host plan) 0
drive_limited-eq-direct_example =
    drive_limited-eq-direct host silent (policy 4) (txt "f") planning context plan 9 0 (λ n. refl)
      plan-IsSound (host-CollisionFree (txt "f"))

drive_limited-plan-RunEnds_example :
    RunEnds host silent (policy 4) (txt "f") planning context (plan_flow host plan) 0
drive_limited-plan-RunEnds_example =
    drive_limited-plan-RunEnds host silent (policy 4) (txt "f") planning context plan 0 (λ n. refl)
      plan-IsSound (host-CollisionFree (txt "f"))

-- The first call of the model fails and is made again, where the run may have more than one attempt.
completed_test :
    direct_limited host silent (policy 4) 9 0 (plan_flow host plan) 0
    ≡ some (completed (str (txt "text")), 7)
unfolding direct_limited plan_flow iterations_flow tools_flow prepare llm_call tool_call lookup ◌==◌
    prop is_llm_memo assert_llm_memo add
completed_test = refl

gave_up_test :
    direct_limited host silent (policy 1) 9 0 (plan_flow host plan) 0
    ≡ some (gave_up (txt "offline"), 1)
unfolding direct_limited plan_flow iterations_flow tools_flow prepare llm_call tool_call lookup ◌==◌
    prop is_llm_memo assert_llm_memo add err_message
gave_up_test = refl

-- The callbacks that succeed count as attempts: with two of them, the first error of the second step ends the run.
late_failure_test :
    direct_limited host silent
      (policy 2)
      9
      0
      (step
        (txt "a")
        (λ n. (done null, suc n))
        (λ v. step (txt "b") (λ n. (failed (txt "offline") none, suc n)) (λ u. finish u)))
      0
    ≡ some (gave_up (txt "offline"), 2)
unfolding direct_limited
late_failure_test = refl

-- Two functions, the second with a handler of its failures.
abbrev other : TriggerFunction ℕ
other = record { opts = record plain { id = txt "g" }; retries = nat 0; handler = planning.handler }

abbrev handled : TriggerFunction ℕ
handled = record {
  opts = record plain { on_failure = some planning.handler };
  retries = nat 0;
  handler = planning.handler;
}

-- an evaluator that knows the expressions of implicit functions only
abbrev compares : Text → Value → Bool
compares expr (str f) = expr == (txt "data.function_id == '" ++ (f ++ txt "'"))
compares expr v = false

abbrev holds : Text → Value → Bool
holds expr payload = compares expr (prop (txt "function_id") payload)

quote_cancel : (s t : Text) → s ++ txt "'" ≡ t ++ txt "'" → s ≡ t
quote_cancel [] [] e = refl
quote_cancel [] (c ∷ []) e = absurd (cc)
quote_cancel [] (c ∷ d ∷ t) e = absurd (cc)
quote_cancel (c ∷ []) [] e = absurd (cc)
quote_cancel (c ∷ d ∷ s) [] e = absurd (cc)
quote_cancel (c ∷ s) (d ∷ t) e = cc (quote_cancel s t (cc))

compared :
    (id f : Text)
    → (txt "data.function_id == '" ++ (id ++ txt "'"))
        == (txt "data.function_id == '" ++ (f ++ txt "'"))
      ≡ (f == id)
compared id f = elim (Bool-cases (f == id)) [
  | inl same ↦ rw (same, (==_iff f id).0 same) (==_refl _)
  | inr differs ↦
      let others : f ≢ id = λ e. false≢true (sym differs ∙ rw e (==_refl id)) in
      ==-other _ _
        (λ e. others (sym (quote_cancel id f (append_cancel (txt "data.function_id == '") _ _ e))))
      ∙ sym differs
]

holds-ReadsIds : ReadsIds holds
holds-ReadsIds id f payload plain of = rw of (compared id f)

made :
    (m : Manifest) × (manifest_of host (txt "app") (registry_of (other ∷ handled ∷ []))
      ≡ returned m)
unfolding manifest_of function_entries function_entry registry_of lookup insert ◌==◌ failure_id
    failure_function
made = (_, refl)

differ : (s t : Text) → (s == t) ≡ false → s ≢ t
differ s t differs e = false≢true (sym differs ∙ rw e (==_refl t))

listed_once : IsDistinct (ids (expand (other ∷ handled ∷ [])))
unfolding expand failure_function failure_id ◌==◌
listed_once = (
  (differ (txt "g") (txt "f") refl, (differ (txt "g") (txt "f/on-failure") refl, tt)),
  ((differ (txt "f") (txt "f/on-failure") refl, tt), (tt, tt)),
)

app-IsOrdinary : All IsOrdinary (other ∷ handled ∷ [])
unfolding ◌==◌
app-IsOrdinary = (
  (
    λ e. differ (txt "e") run_failed refl (ap (λ o. or_else o []) e),
    ((omega arith, λ e. omega (arith, e), λ e. omega (arith, e)), tt),
  ),
  (
    (
      λ e. differ (txt "e") run_failed refl (ap (λ o. or_else o []) e),
      ((omega arith, λ e. omega (arith, e), λ e. omega (arith, e)), tt),
    ),
    tt,
  ),
)

manifest_of-IsHandled_example :
    IsHandled holds (other ∷ handled ∷ []) made.0 (txt "f") planning.handler
manifest_of-IsHandled_example =
    manifest_of-IsHandled host (txt "app") made.0 holds (other ∷ []) [] handled planning.handler
      refl made.1 listed_once app-IsOrdinary holds-ReadsIds
