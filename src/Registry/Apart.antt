-- ===== src/Registry/Apart.antt =====
-- The ids around a function in the registry of sdk-ts/src/serve.ts, and what stands under them.
use triggerlink.Prelude.{
  ◌≡◌, ◌≢◌, refl, sym, ◌∙◌, subst, ap, none, some, Option, List, [], ◌∷◌, ◌++◌, map, false, Text,
  All, IsDistinct, lookup, ◌==◌, ==_iff, ==_refl, Bool-cases, inl, inr,
}
use triggerlink.Function.{Handler, TriggerFunction}
use triggerlink.Registry.Lookup.{expand, with_failure}
use triggerlink.Registry.Fresh.{indexed, distinct_before, append_one}

pub ==-other : (a b : Text) → a ≢ b → (a == b) ≡ false
==-other a b other = elim (Bool-cases (a == b)) [
  | inl same ↦ absurd (other ((==_iff a b).0 same))
  | inr differs ↦ differs
]

pub All-flip : (k : Text) (xs : List Text) → All (λ id. id ≢ k) xs → All (λ id. k ≢ id) xs
All-flip k [] h = tt
All-flip k (x ∷ xs) (other, h) = (λ e. other (sym e), All-flip k xs h)

pub IsDistinct-append_right : (xs ys : List Text) → IsDistinct (xs ++ ys) → IsDistinct ys
IsDistinct-append_right [] ys h = h
IsDistinct-append_right (x ∷ xs) ys (apart, h) = IsDistinct-append_right xs ys h

-- The ids before and after a function and its implicit one.
pub record AreApart (before after : List Text) (own failure : Text) : Type 0 where
  pub own_before : All (λ id. own ≢ id) before
  pub own_after : All (λ id. own ≢ id) after
  pub both_before : All (λ id. id ≢ failure) (before ++ (own ∷ []))
  pub failure_after : All (λ id. failure ≢ id) after

pub IsDistinct-AreApart :
    (before after : List Text) (own failure : Text)
    → IsDistinct (before ++ (own ∷ failure ∷ after))
    → AreApart before after own failure
IsDistinct-AreApart before after own failure h =
    let (owns, (failures, _)) = IsDistinct-append_right before _ h in
    record {
      own_before = All-flip own before (distinct_before before own _ h);
      own_after = owns.1;
      both_before =
          distinct_before (before ++ (own ∷ [])) failure after
            (subst IsDistinct (sym (append_one before own (failure ∷ after))) h);
      failure_after = failures;
    }

module _ {W : Type 0} where
  abbrev pub ids : List (TriggerFunction W) → List Text
  ids fns = map (λ f. f.opts.id) fns

  pub with_failure-append :
      (id : Text) (failure : Option (Handler W)) (fns gs : List (TriggerFunction W))
      → with_failure id failure (fns ++ gs) ≡ with_failure id failure fns ++ gs
  with_failure-append id none fns gs = refl
  with_failure-append id (some handler) fns gs = refl

  pub expand-append :
      (fns gs : List (TriggerFunction W)) → expand (fns ++ gs) ≡ expand fns ++ expand gs
  unfolding expand
  expand-append [] gs = refl
  expand-append (fn ∷ fns) gs =
      ap (λ fs. fn ∷ with_failure fn.opts.id fn.opts.on_failure fs) (expand-append fns gs)
      ∙ ap (λ fs. fn ∷ fs)
          (with_failure-append fn.opts.id fn.opts.on_failure (expand fns) (expand gs))

  pub with_failure-All :
      (P : Text → Type 0) (id : Text) (failure : Option (Handler W))
      (fns : List (TriggerFunction W))
      → All P (ids (with_failure id failure fns))
      → All P (ids fns)
  with_failure-All P id none fns h = h
  with_failure-All P id (some handler) fns (here, later) = later

  pub lookup-indexed :
      (k : Text) (fns : List (TriggerFunction W)) (g : TriggerFunction W)
      (gs : List (TriggerFunction W))
      → All (λ id. id ≢ k) (ids fns)
      → g.opts.id ≡ k
      → lookup k (indexed (fns ++ (g ∷ gs))) ≡ some g
  unfolding lookup
  lookup-indexed k [] g gs apart e = rw (e, ==_refl k) refl
  lookup-indexed k (fn ∷ fns) g gs (other, apart) e =
      rw (==-other fn.opts.id k other) (lookup-indexed k fns g gs apart e)
