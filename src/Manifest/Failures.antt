-- ===== src/Manifest/Failures.antt =====
-- What the failure of a run triggers: the implicit functions of `onFailure` (sdk-ts/src/serve.ts), as the manifest reports
-- them, under a platform that routes events by docs/protocol.md (sections 3 and 3.2).
use triggerlink.Prelude.{
  ℕ, ◌≤◌, ◌≡◌, ◌≢◌, refl, ◌∙◌, ap, none, some, Option, List, [], ◌∷◌, ◌++◌, Bool, true, false, Text,
  txt, All, is_empty, if◌then◌else◌, ◌==◌, ==_iff, Bool-cases, Option-cases, inl, inr, arith, ◌&&◌,
}
use triggerlink.Value.{Value, str, obj, field, end, prop}
use triggerlink.Execx.{Host}
use triggerlink.Effects.{returned}
use triggerlink.Function.{Handler, TriggerFunction, given}
use triggerlink.Registry.{failure_id, failure_function}
use triggerlink.Registry.Lookup.{expand, with_failure}
use triggerlink.Manifest.{
  FunctionEntry, function_entry, function_entries, given_duration, debounce_entry, throttle_entry,
  batch_entry,
}
use triggerlink.Manifest.Entries.{bind-eq-returned}

abbrev pub run_failed : Text
run_failed = txt "triggerlink/run.failed"

-- the data of the event that the platform emits
abbrev pub failed_data : (run_id f error : Text) (event : Value) → Value
failed_data run_id f error event = obj (
    field (txt "run_id") (str run_id) (
      field (txt "function_id") (str f)
        (field (txt "error") (str error) (field (txt "event") event end))))

abbrev pub is_named : Option Text → Text → Bool
is_named none name = false
is_named (some event) name = event == name

-- `holds` evaluates an expression over the data of an event.
module _ (holds : Text → Value → Bool) where
  abbrev pub is_matched : Option Text → Value → Bool
  is_matched none payload = true
  is_matched (some expr) payload = if is_empty expr then true else holds expr payload

  -- the ids of the functions that an event triggers, in the order of the manifest
  unfoldable pub triggered : List FunctionEntry → (name : Text) (payload : Value) → List Text
  triggered [] name payload = []
  triggered (e ∷ es) name payload =
      let rest = triggered es name payload in
      if is_named e.event name && is_matched e.match payload then e.id ∷ rest else rest

-- A character that stands for itself between single quotes.
abbrev pub IsUnquoted : ℕ → Type 0
IsUnquoted c = (32 ≤ c) × (c ≢ b'\'') × (c ≢ b'\\')

-- The expression of an implicit function compares the id of the function that has failed.
abbrev pub ReadsIds : (Text → Value → Bool) → Type 0
ReadsIds holds =
    (id f : Text) (payload : Value)
    → All IsUnquoted id
    → prop (txt "function_id") payload ≡ str f
    → holds (txt "data.function_id == '" ++ (id ++ txt "'")) payload ≡ (f == id)

module _ {W : Type 0} where
  abbrev pub failure_id_of : (id f : Text) → Option (Handler W) → List Text → List Text
  failure_id_of id f none rest = rest
  failure_id_of id f (some handler) rest = if f == id then failure_id id ∷ rest else rest

  -- the implicit functions of the functions with an id
  unfoldable pub failure_ids : Text → List (TriggerFunction W) → List Text
  failure_ids f [] = []
  failure_ids f (fn ∷ fns) = failure_id_of fn.opts.id f fn.opts.on_failure (failure_ids f fns)

  -- A user's function does not subscribe to failures, and its id stands for itself between quotes.
  abbrev pub IsOrdinary : TriggerFunction W → Type 0
  IsOrdinary fn = (fn.opts.event ≢ some run_failed) × All IsUnquoted fn.opts.id

  -- The platform triggers what the functions of the registry ask for.
  module _ (holds : Text → Value → Bool) where
    listens : TriggerFunction W → Text → Value → Bool
    listens fn name payload =
        is_named fn.opts.event name && is_matched holds (given fn.opts.match) payload

    unfoldable pub listeners : List (TriggerFunction W) → Text → Value → List Text
    unfolding listens
    listeners [] name payload = []
    listeners (fn ∷ fns) name payload =
        let rest = listeners fns name payload in
        if listens fn name payload then fn.opts.id ∷ rest else rest

    function_entry_trigger :
        (host : Host) (f : TriggerFunction W) (e : FunctionEntry)
        → function_entry host f ≡ returned e
        → (e.id ≡ f.opts.id) × (e.event ≡ f.opts.event) × (e.match ≡ given f.opts.match)
    unfolding function_entry
    function_entry_trigger host f e h =
        let (timeout, _, h1) = bind-eq-returned (given_duration host f.opts.timeout) _ h in
        let (debounce, _, h2) = bind-eq-returned (debounce_entry host f.opts.debounce) _ h1 in
        let (throttle, _, h3) = bind-eq-returned (throttle_entry host f.opts.throttle) _ h2 in
        let (batch, _, h4) = bind-eq-returned (batch_entry host f.opts.batch) _ h3 in
        (ground arith, ground arith, ground arith)

    pub triggered-listeners :
        (host : Host) (fns : List (TriggerFunction W)) (es : List FunctionEntry) (name : Text)
        (payload : Value)
        → function_entries host fns ≡ returned es
        → triggered holds es name payload ≡ listeners fns name payload
    unfolding function_entries triggered listens listeners
    triggered-listeners host [] es name payload h = let same : [] ≡ es = cc in rw (← same)
    triggered-listeners host (f ∷ fns) es name payload h =
        let (e, here, h1) = bind-eq-returned (function_entry host f) _ h in
        let (rest, later, h2) = bind-eq-returned (function_entries host fns) _ h1 in
        let same : e ∷ rest ≡ es = cc in
        let (id, event, match) = function_entry_trigger host f e here in
        rw (← same, id, event, match, triggered-listeners host fns rest name payload later) refl

    user-listens :
        (fn : TriggerFunction W) (payload : Value)
        → fn.opts.event ≢ some run_failed
        → listens fn run_failed payload ≡ false
    unfolding listens
    user-listens fn payload other = elim (Option-cases fn.opts.event) [
      | inl e ↦ rw e refl
      | inr (event, e) ↦ elim (Bool-cases (event == run_failed)) [
        | inl same ↦ absurd (other (e ∙ ap some ((==_iff event run_failed).0 same)))
        | inr differs ↦ rw (e, differs) refl
      ]
    ]

    failure-listens :
        (id f : Text) (handler : Handler W) (payload : Value)
        → ReadsIds holds
        → All IsUnquoted id
        → prop (txt "function_id") payload ≡ str f
        → listens (failure_function id handler) run_failed payload ≡ (f == id)
    unfolding listens failure_function ◌==◌
    failure-listens id f handler payload reads plain of = reads id f payload plain of

    with_failure-failure_ids :
        (id : Text) (failure : Option (Handler W)) (rest : List (TriggerFunction W)) (f : Text)
        (payload : Value) (ids : List Text)
        → ReadsIds holds
        → All IsUnquoted id
        → prop (txt "function_id") payload ≡ str f
        → listeners rest run_failed payload ≡ ids
        → listeners (with_failure id failure rest) run_failed payload
          ≡ failure_id_of id f failure ids
    unfolding listeners
    with_failure-failure_ids id none rest f payload ids reads plain of later = later
    with_failure-failure_ids id (some handler) rest f payload ids reads plain of later =
        rw (failure-listens id f handler payload reads plain of, later)
          (unfold failure_function in refl)

    pub listeners-failure_ids :
        (fns : List (TriggerFunction W)) (f : Text) (payload : Value)
        → ReadsIds holds
        → All IsOrdinary fns
        → prop (txt "function_id") payload ≡ str f
        → listeners (expand fns) run_failed payload ≡ failure_ids f fns
    unfolding listeners expand failure_ids
    listeners-failure_ids [] f payload reads ordinary of = refl
    listeners-failure_ids (fn ∷ fns) f payload reads ((other, plain), ordinary) of =
        rw (user-listens fn payload other) (
          with_failure-failure_ids fn.opts.id fn.opts.on_failure (expand fns) f payload _ reads
            plain of (listeners-failure_ids fns f payload reads ordinary of))
