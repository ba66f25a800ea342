-- ===== src/Manifest/Handling.antt =====
-- A run that has failed, and the handler `onFailure` of its function: serve of sdk-ts/src/serve.ts with its manifest.
use triggerlink.Prelude.{
  ◌≡◌, ◌≢◌, refl, sym, ◌∙◌, subst, ap, none, some, Option, List, [], ◌∷◌, ◌++◌, arith, Bool, Text,
  txt, All, All-append_left, All-append_right, IsDistinct, values, lookup, ◌==◌, ==_refl,
  Bool-cases, inl, inr,
}
use mathlib.Core.List.{map-append}
use triggerlink.Value.{Value, str, prop}
use triggerlink.Execx.{Host}
use triggerlink.Effects.{returned}
use triggerlink.Function.{Handler, TriggerFunction}
use triggerlink.Registry.{failure_id, failure_function, registry_of}
use triggerlink.Registry.Lookup.{expand}
use triggerlink.Registry.Fresh.{registry_of_fresh, values-indexed, indexed, append_one}
use triggerlink.Registry.Apart.{
  ==-other, All-flip, AreApart, IsDistinct-AreApart, ids, expand-append, with_failure-All,
  lookup-indexed,
}
use triggerlink.Manifest.{Manifest, function_entries, manifest_of}
use triggerlink.Manifest.Entries.{bind-eq-returned}
use triggerlink.Manifest.Failures.{
  run_failed, failed_data, triggered, ReadsIds, failure_id_of, failure_ids, IsOrdinary,
  triggered-listeners, listeners-failure_ids,
}

module _ {W : Type 0} where
  triggered-failure_ids :
      (host : Host) (app_id : Text) (m : Manifest) (holds : Text → Value → Bool)
      (fns : List (TriggerFunction W)) (f : Text) (payload : Value)
      → manifest_of host app_id (registry_of fns) ≡ returned m
      → IsDistinct (ids (expand fns))
      → ReadsIds holds
      → All IsOrdinary fns
      → prop (txt "function_id") payload ≡ str f
      → triggered holds m.functions run_failed payload ≡ failure_ids f fns
  unfolding manifest_of
  triggered-failure_ids host app_id m holds fns f payload made distinct reads ordinary of =
      let (es, entries, h) =
        bind-eq-returned (function_entries host (values (registry_of fns))) _ made in
      let same : es ≡ m.functions = ground arith in
      let all : values (registry_of fns) ≡ expand fns =
        ap values (registry_of_fresh fns distinct) ∙ values-indexed (expand fns) in
      rw (← same) (
        triggered-listeners holds host (expand fns) es run_failed payload (rw all at entries)
        ∙ listeners-failure_ids holds fns f payload reads ordinary of)

  failure_id_of-other :
      (id f : Text) (failure : Option (Handler W)) (rest : List Text)
      → f ≢ id
      → failure_id_of id f failure rest ≡ rest
  failure_id_of-other id f none rest other = refl
  failure_id_of-other id f (some handler) rest other = rw (==-other f id other) refl

  -- No failure is that of a function with another id.
  failure_ids-other :
      (f : Text) (fns : List (TriggerFunction W))
      → All (λ id. f ≢ id) (ids (expand fns))
      → failure_ids f fns ≡ []
  unfolding failure_ids expand
  failure_ids-other f [] apart = refl
  failure_ids-other f (fn ∷ fns) (other, apart) =
      failure_id_of-other fn.opts.id f fn.opts.on_failure _ other
      ∙ failure_ids-other f fns
          (with_failure-All (λ id. f ≢ id) fn.opts.id fn.opts.on_failure (expand fns) apart)

  failure_id_of-append :
      (id f : Text) (failure : Option (Handler W)) (xs ys : List Text)
      → failure_id_of id f failure (xs ++ ys) ≡ failure_id_of id f failure xs ++ ys
  failure_id_of-append id f none xs ys = refl
  failure_id_of-append id f (some handler) xs ys = elim (Bool-cases (f == id)) [
    | inl same ↦ rw same refl
    | inr differs ↦ rw differs refl
  ]

  failure_ids-append :
      (f : Text) (fns gs : List (TriggerFunction W))
      → failure_ids f (fns ++ gs) ≡ failure_ids f fns ++ failure_ids f gs
  unfolding failure_ids
  failure_ids-append f [] gs = refl
  failure_ids-append f (fn ∷ fns) gs =
      ap (failure_id_of fn.opts.id f fn.opts.on_failure) (failure_ids-append f fns gs)
      ∙ failure_id_of-append fn.opts.id f fn.opts.on_failure (failure_ids f fns) (failure_ids f gs)

  module _ (before after : List (TriggerFunction W)) (fn : TriggerFunction W) (handler : Handler W)
      (has_handler : fn.opts.on_failure ≡ some handler) where
    abbrev fns : List (TriggerFunction W)
    fns = before ++ (fn ∷ after)

    abbrev failure : TriggerFunction W
    failure = failure_function fn.opts.id handler

    expand-around : expand fns ≡ expand before ++ (fn ∷ failure ∷ expand after)
    unfolding expand
    expand-around = expand-append before (fn ∷ after) ∙ rw has_handler refl

    around-AreApart :
        IsDistinct (ids (expand fns))
        → AreApart (ids (expand before)) (ids (expand after)) fn.opts.id (failure_id fn.opts.id)
    unfolding failure_function
    around-AreApart distinct =
        IsDistinct-AreApart (ids (expand before)) (ids (expand after)) fn.opts.id
          (failure_id fn.opts.id)
          (subst IsDistinct
            (ap ids expand-around ∙ map-append _ (expand before) (fn ∷ failure ∷ expand after))
            distinct)

    module _
        (apart : AreApart
          (ids (expand before))
          (ids (expand after))
          fn.opts.id
          (failure_id fn.opts.id)) where
      failure_ids-own : failure_ids fn.opts.id fns ≡ failure_id fn.opts.id ∷ []
      unfolding failure_ids
      failure_ids-own =
          failure_ids-append fn.opts.id before (fn ∷ after)
          ∙ rw
              (
                failure_ids-other fn.opts.id before apart.own_before,
                has_handler,
                ==_refl fn.opts.id,
                failure_ids-other fn.opts.id after apart.own_after,
              )
              refl

      failure_ids-failure : failure_ids (failure_id fn.opts.id) fns ≡ []
      unfolding failure_ids
      failure_ids-failure =
          let others =
            All-append_left (λ id. id ≢ failure_id fn.opts.id) (ids (expand before))
              (fn.opts.id ∷ []) apart.both_before in
          let own =
            (All-append_right (λ id. id ≢ failure_id fn.opts.id) (ids (expand before))
              (fn.opts.id ∷ []) apart.both_before).0 in
          failure_ids-append (failure_id fn.opts.id) before (fn ∷ after)
          ∙ rw (failure_ids-other (failure_id fn.opts.id) before (All-flip _ _ others)) (
              failure_id_of-other fn.opts.id (failure_id fn.opts.id) fn.opts.on_failure _
                (λ e. own (sym e))
              ∙ failure_ids-other (failure_id fn.opts.id) after apart.failure_after)

      lookup-failure : lookup (failure_id fn.opts.id) (indexed (expand fns)) ≡ some failure
      unfolding failure_function
      lookup-failure =
          ap (λ fs. lookup (failure_id fn.opts.id) (indexed fs))
            (expand-around ∙ sym (append_one (expand before) fn (failure ∷ expand after)))
          ∙ lookup-indexed (failure_id fn.opts.id) (expand before ++ (fn ∷ [])) failure
              (expand after)
              (subst (All (λ id. id ≢ failure_id fn.opts.id))
                (sym (map-append _ (expand before) (fn ∷ []))) apart.both_before)
              refl

-- What becomes of a failure of the run of a function with a handler.
pub record IsHandled {W : Type 0} (holds : Text → Value → Bool) (fns : List (TriggerFunction W))
    (m : Manifest) (f : Text) (handler : Handler W) : Type 0 where
  pub triggers :
      (run_id error : Text) (event : Value)
      → triggered holds m.functions run_failed (failed_data run_id f error event)
        ≡ failure_id f ∷ []
  pub found : lookup (failure_id f) (registry_of fns) ≡ some (failure_function f handler)
  pub ends_there :
      (run_id error : Text) (event : Value)
      → triggered holds m.functions run_failed (failed_data run_id (failure_id f) error event) ≡ []

-- The failure of a run of a function that has an `onFailure` handler triggers exactly one function of the
-- application, under whose id the registry finds that handler; and the failure of a run of that one in turn triggers none.
-- No id is listed twice, those of the implicit functions included; the functions that are listed do not
-- subscribe to failures themselves, and their ids have no quote, backslash or control character; the
-- expression of an implicit function is evaluated as a comparison of ids; and the manifest can be made.
pub manifest_of-IsHandled :
    {W : Type 0} (host : Host) (app_id : Text) (m : Manifest) (holds : Text → Value → Bool)
    (before after : List (TriggerFunction W)) (fn : TriggerFunction W) (handler : Handler W)
    → fn.opts.on_failure ≡ some handler
    → manifest_of host app_id (registry_of (before ++ (fn ∷ after))) ≡ returned m
    → IsDistinct (ids (expand (before ++ (fn ∷ after))))
    → All IsOrdinary (before ++ (fn ∷ after))
    → ReadsIds holds
    → IsHandled holds (before ++ (fn ∷ after)) m fn.opts.id handler
unfolding ◌==◌ prop
manifest_of-IsHandled host app_id m holds before after fn handler has_handler made distinct ordinary
      reads =
    let all = before ++ (fn ∷ after) in
    let apart = around-AreApart before after fn handler has_handler distinct in
    record {
      triggers = λ run_id error event.
          triggered-failure_ids host app_id m holds all fn.opts.id _ made distinct reads ordinary
            refl
          ∙ failure_ids-own before after fn handler has_handler apart;
      found =
          ap (lookup (failure_id fn.opts.id)) (registry_of_fresh all distinct)
          ∙ lookup-failure before after fn handler has_handler apart;
      ends_there = λ run_id error event.
          triggered-failure_ids host app_id m holds all (failure_id fn.opts.id) _ made distinct
            reads ordinary refl
          ∙ failure_ids-failure before after fn handler has_handler apart;
    }
