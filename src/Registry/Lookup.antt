-- ===== src/Registry/Lookup.antt =====
-- What `byID.get` finds in the registry of sdk-ts/src/serve.ts.
use triggerlink.Prelude.{
  ◌≡◌, refl, sym, ◌∙◌, Option, none, some, List, [], ◌∷◌, arith, Text, ◌==◌, ==_iff, lookup, insert,
  lookup-insert, if◌then◌else◌, keys, IsDistinct, keys-insert-IsDistinct,
}
use triggerlink.Function.{Handler, TriggerFunction}
use triggerlink.Registry.{
  Registry, failure_id, failure_function, register_failure, register, register_all, registry_of,
}

module _ {W : Type 0} where
  abbrev pub with_failure :
      Text → Option (Handler W) → List (TriggerFunction W) → List (TriggerFunction W)
  with_failure id none rest = rest
  with_failure id (some handler) rest = failure_function id handler ∷ rest

  -- The functions of an application, each followed by the implicit one of its failure handler.
  unfoldable pub expand : List (TriggerFunction W) → List (TriggerFunction W)
  expand [] = []
  expand (fn ∷ fns) = fn ∷ with_failure fn.opts.id fn.opts.on_failure (expand fns)

  -- The last function of a list that has an id.
  unfoldable pub latest : Text → List (TriggerFunction W) → Option (TriggerFunction W)
  latest k [] = none
  latest k (fn ∷ fns) = elim (latest k fns) [
    | some later ↦ some later
    | none ↦ if fn.opts.id == k then some fn else none
  ]

  abbrev prefer :
      Option (TriggerFunction W) → Option (TriggerFunction W) → Option (TriggerFunction W)
  prefer (some f) b = some f
  prefer none b = b

  lookup-register_failure :
      (k id : Text) (failure : Option (Handler W)) (fns : List (TriggerFunction W))
      (reg : Registry W)
      → prefer (latest k fns) (lookup k (register_failure id failure reg))
        ≡ prefer (latest k (with_failure id failure fns)) (lookup k reg)
  unfolding register_failure latest failure_function
  lookup-register_failure k id none fns reg = refl
  lookup-register_failure k id (some handler) fns reg =
      ground (arith, lookup-insert (failure_id id) k (failure_function id handler) reg)

  prefer-insert :
      (k : Text) (fn : TriggerFunction W) (rest : List (TriggerFunction W)) (reg : Registry W)
      → prefer (latest k rest) (lookup k (insert fn.opts.id fn reg))
        ≡ prefer (latest k (fn ∷ rest)) (lookup k reg)
  unfolding latest
  prefer-insert k fn rest reg = ground (arith, lookup-insert fn.opts.id k fn reg)

  lookup-register_all :
      (k : Text) (fns : List (TriggerFunction W)) (reg : Registry W)
      → lookup k (register_all fns reg) ≡ prefer (latest k (expand fns)) (lookup k reg)
  unfolding register_all expand
  lookup-register_all k [] reg = unfold latest in refl
  lookup-register_all k (fn ∷ fns) reg =
      lookup-register_all k fns (register fn reg)
      ∙ unfold register in
        lookup-register_failure k fn.opts.id fn.opts.on_failure (expand fns) _
        ∙ prefer-insert k fn (with_failure fn.opts.id fn.opts.on_failure (expand fns)) reg

prefer-none : {W : Type 0} (o : Option (TriggerFunction W)) → prefer o none ≡ o
prefer-none none = refl
prefer-none (some f) = refl

-- The registry finds, under each id, the function that was listed last with it, where every function
-- with a failure handler is followed by its implicit function.
pub lookup-registry_of :
    {W : Type 0} (k : Text) (fns : List (TriggerFunction W))
    → lookup k (registry_of fns) ≡ latest k (expand fns)
unfolding registry_of
lookup-registry_of k fns =
    lookup-register_all k fns [] ∙ unfold lookup in prefer-none (latest k (expand fns))

register_failure-IsDistinct :
    {W : Type 0} (id : Text) (failure : Option (Handler W)) (reg : Registry W)
    → IsDistinct (keys reg)
    → IsDistinct (keys (register_failure id failure reg))
unfolding register_failure
register_failure-IsDistinct id none reg h = h
register_failure-IsDistinct id (some handler) reg h = keys-insert-IsDistinct _ _ reg h

register_all-IsDistinct :
    {W : Type 0} (fns : List (TriggerFunction W)) (reg : Registry W)
    → IsDistinct (keys reg)
    → IsDistinct (keys (register_all fns reg))
unfolding register_all register
register_all-IsDistinct [] reg h = h
register_all-IsDistinct (fn ∷ fns) reg h = register_all-IsDistinct fns _ (
    register_failure-IsDistinct fn.opts.id fn.opts.on_failure _
      (keys-insert-IsDistinct fn.opts.id fn reg h))

-- No id is in the registry twice.
pub registry_of-IsDistinct :
    {W : Type 0} (fns : List (TriggerFunction W)) → IsDistinct (keys (registry_of fns))
unfolding registry_of
registry_of-IsDistinct fns = register_all-IsDistinct fns [] tt

latest_id :
    {W : Type 0} (k : Text) (fns : List (TriggerFunction W)) (f : TriggerFunction W)
    → latest k fns ≡ some f
    → f.opts.id ≡ k
unfolding latest
latest_id k [] f h = cc
latest_id k (fn ∷ fns) f h = ground (arith, latest_id k fns f, ==_iff fn.opts.id k)

-- A callback for an id is answered by a function of that id.
pub lookup-registry_of_id :
    {W : Type 0} (k : Text) (fns : List (TriggerFunction W)) (f : TriggerFunction W)
    → lookup k (registry_of fns) ≡ some f
    → f.opts.id ≡ k
lookup-registry_of_id k fns f h = latest_id k (expand fns) f (sym (lookup-registry_of k fns) ∙ h)
