-- ===== src/Manifest/Entries.antt =====
-- Which functions the manifest of sdk-ts/src/serve.ts lists, and when it cannot be made.
use triggerlink.Prelude.{
  ◌≡◌, inl, inr, refl, ◌∙◌, Option, none, some, List, [], ◌∷◌, Text, map, insert, keys, values,
  ◌==◌, ==_iff, Bool-cases, arith, IsDistinct,
}
use triggerlink.Execx.{Host}
use triggerlink.Effects.{Outcome, returned, threw}
use triggerlink.Function.{Handler, TriggerFunction}
use triggerlink.Registry.{
  Registry, failure_function, register_failure, register, register_all, registry_of,
}
use triggerlink.Registry.Lookup.{registry_of-IsDistinct}
use triggerlink.Manifest.{
  FunctionEntry, Manifest, given_duration, debounce_entry, throttle_entry, batch_entry,
  function_entry, function_entries, manifest_of, ◌>>=◌,
}

pub bind-eq-returned :
    {A B : Type 0} (m : Outcome A) (k : A → Outcome B) {b : B}
    → (m >>= k) ≡ returned b
    → (a : A) × (m ≡ returned a) × (k a ≡ returned b)
bind-eq-returned (returned a) k h = (a, refl, h)
bind-eq-returned (threw e) k h = cc

module _ {W : Type 0} where
  abbrev function_ids : List (TriggerFunction W) → List Text
  function_ids fs = map (λ f. f.opts.id) fs

  function_entry_id :
      (host : Host) (f : TriggerFunction W) (e : FunctionEntry)
      → function_entry host f ≡ returned e
      → e.id ≡ f.opts.id
  unfolding function_entry
  function_entry_id host f e h =
      let (timeout, _, h1) = bind-eq-returned (given_duration host f.opts.timeout) _ h in
      let (debounce, _, h2) = bind-eq-returned (debounce_entry host f.opts.debounce) _ h1 in
      let (throttle, _, h3) = bind-eq-returned (throttle_entry host f.opts.throttle) _ h2 in
      let (batch, _, h4) = bind-eq-returned (batch_entry host f.opts.batch) _ h3 in ground arith

  function_entries_ids :
      (host : Host) (fs : List (TriggerFunction W)) (es : List FunctionEntry)
      → function_entries host fs ≡ returned es
      → map (λ e. e.id) es ≡ function_ids fs
  unfolding function_entries
  function_entries_ids host [] es h = let same : [] ≡ es = cc in rw (← same)
  function_entries_ids host (f ∷ fs) es h =
      let (e, here, h1) = bind-eq-returned (function_entry host f) _ h in
      let (rest, later, h2) = bind-eq-returned (function_entries host fs) _ h1 in
      let same : e ∷ rest ≡ es = cc in
      rw (← same) (cc (function_entry_id host f e here, function_entries_ids host fs rest later))

  -- Each function stands in a registry under its own id.
  abbrev IsIndexed : Registry W → Type 0
  IsIndexed reg = function_ids (values reg) ≡ keys reg

  insert-IsIndexed :
      (fn : TriggerFunction W) (reg : Registry W)
      → IsIndexed reg
      → IsIndexed (insert fn.opts.id fn reg)
  unfolding insert
  insert-IsIndexed fn [] h = refl
  insert-IsIndexed fn ((j, g) ∷ reg) h = elim (Bool-cases (j == fn.opts.id)) [
    | inl same ↦ rw same (cc ((==_iff j fn.opts.id).0 same))
    | inr differ ↦ rw differ (cc (insert-IsIndexed fn reg (cc)))
  ]

  register_failure-IsIndexed :
      (id : Text) (failure : Option (Handler W)) (reg : Registry W)
      → IsIndexed reg
      → IsIndexed (register_failure id failure reg)
  unfolding register_failure failure_function
  register_failure-IsIndexed id none reg h = h
  register_failure-IsIndexed id (some handler) reg h =
      insert-IsIndexed (failure_function id handler) reg h

  register_all-IsIndexed :
      (fns : List (TriggerFunction W)) (reg : Registry W)
      → IsIndexed reg
      → IsIndexed (register_all fns reg)
  unfolding register_all register
  register_all-IsIndexed [] reg h = h
  register_all-IsIndexed (fn ∷ fns) reg h =
      register_all-IsIndexed fns _
        (register_failure-IsIndexed fn.opts.id fn.opts.on_failure _ (insert-IsIndexed fn reg h))

-- The manifest of an application lists the ids of the registry, in the order of the registry, and
-- none of them twice.
pub manifest_of_ids :
    {W : Type 0} (host : Host) (app_id : Text) (fns : List (TriggerFunction W)) (m : Manifest)
    → manifest_of host app_id (registry_of fns) ≡ returned m
    → (map (λ e. e.id) m.functions ≡ keys (registry_of fns))
      × IsDistinct (map (λ e. e.id) m.functions)
unfolding manifest_of
manifest_of_ids host app_id fns m h =
    let (es, made, h1) = bind-eq-returned (function_entries host (values (registry_of fns))) _ h in
    let same : es ≡ m.functions = ground arith in
    let ids : map (λ e. e.id) es ≡ keys (registry_of fns) =
      function_entries_ids host _ es made
      ∙ (unfold registry_of in register_all-IsIndexed fns [] refl) in
    let listed : map (λ e. e.id) m.functions ≡ keys (registry_of fns) = rw (← same) ids in
    (listed, rw listed (registry_of-IsDistinct fns))
