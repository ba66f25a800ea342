-- ===== src/Registry/Fresh.antt =====
-- The registry of sdk-ts/src/serve.ts where no id is listed twice.
use triggerlink.Prelude.{
  ◌≡◌, ◌≢◌, refl, sym, ◌∙◌, subst, ap, none, some, Option, List, [], ◌∷◌, ◌++◌, append-nil, map,
  Text, insert, keys, values, All, All-append_right, IsDistinct, ◌==◌, ==_iff, Bool-cases, inl, inr,
}
use triggerlink.Function.{Handler, TriggerFunction}
use triggerlink.Registry.{
  Registry, failure_id, failure_function, register_failure, register, register_all, registry_of,
}
use triggerlink.Registry.Lookup.{expand, with_failure}

module _ {V : Type 0} where
  insert_fresh :
      (k : Text) (v : V) (m : List (Text × V))
      → All (λ y. y ≢ k) (keys m)
      → insert k v m ≡ m ++ ((k, v) ∷ [])
  unfolding insert
  insert_fresh k v [] fresh = refl
  insert_fresh k v ((j, w) ∷ m) (apart, fresh) = elim (Bool-cases (j == k)) [
    | inl same ↦ absurd (apart ((==_iff j k).0 same))
    | inr differ ↦ rw (differ, insert_fresh k v m fresh)
  ]

  keys-append : (m n : List (Text × V)) → keys (m ++ n) ≡ keys m ++ keys n
  keys-append [] n = refl
  keys-append ((k, v) ∷ m) n = ap (λ ks. k ∷ ks) (keys-append m n)

pub distinct_before :
    (xs : List Text) (k : Text) (ys : List Text) → IsDistinct (xs ++ (k ∷ ys)) → All (λ y. y ≢ k) xs
distinct_before [] k ys h = tt
distinct_before (x ∷ xs) k ys (apart, h) =
    ((All-append_right (λ y. x ≢ y) xs (k ∷ ys) apart).0, distinct_before xs k ys h)

pub append_one :
    {A : Type 0} (xs : List A) (x : A) (ys : List A) → (xs ++ (x ∷ [])) ++ ys ≡ xs ++ (x ∷ ys)
append_one [] x ys = refl
append_one (y ∷ xs) x ys = ap (λ zs. y ∷ zs) (append_one xs x ys)

module _ {W : Type 0} where
  abbrev pub indexed : List (TriggerFunction W) → Registry W
  indexed fns = map (λ f. (f.opts.id, f)) fns

  fresh_before :
      (reg : Registry W) (f : TriggerFunction W) (rest : List (TriggerFunction W))
      → IsDistinct (keys (reg ++ indexed (f ∷ rest)))
      → insert f.opts.id f reg ≡ reg ++ ((f.opts.id, f) ∷ [])
  fresh_before reg f rest h = insert_fresh f.opts.id f reg (
      distinct_before (keys reg) f.opts.id _
        (subst IsDistinct (keys-append reg (indexed (f ∷ rest))) h))

  register_fresh :
      (f : TriggerFunction W) (failure : Option (Handler W)) (rest : List (TriggerFunction W))
      (reg : Registry W)
      → IsDistinct (keys (reg ++ indexed (f ∷ with_failure f.opts.id failure rest)))
      → register_failure f.opts.id failure (insert f.opts.id f reg) ++ indexed rest
        ≡ reg ++ indexed (f ∷ with_failure f.opts.id failure rest)
  unfolding register_failure failure_id failure_function
  register_fresh f none rest reg h =
      rw (fresh_before reg f rest h) (append_one reg (f.opts.id, f) (indexed rest))
  register_fresh f (some handler) rest reg h =
      let g = failure_function f.opts.id handler in
      let moved = append_one reg (f.opts.id, f) (indexed (g ∷ rest)) in
      let again = subst (λ r. IsDistinct (keys r)) (sym moved) h in
      rw (fresh_before reg f (g ∷ rest) h) (
        ap (λ r. r ++ indexed rest) (fresh_before (reg ++ ((f.opts.id, f) ∷ [])) g rest again)
        ∙ append_one (reg ++ ((f.opts.id, f) ∷ [])) (g.opts.id, g) (indexed rest)
        ∙ moved)

  register_all_fresh :
      (fns : List (TriggerFunction W)) (reg : Registry W)
      → IsDistinct (keys (reg ++ indexed (expand fns)))
      → register_all fns reg ≡ reg ++ indexed (expand fns)
  unfolding register_all register expand
  register_all_fresh [] reg h = sym (append-nil reg)
  register_all_fresh (fn ∷ fns) reg h =
      let one = register_fresh fn fn.opts.on_failure (expand fns) reg h in
      register_all_fresh fns _ (subst (λ r. IsDistinct (keys r)) (sym one) h) ∙ one

  function_ids_of : (fns : List (TriggerFunction W)) → keys (indexed fns) ≡ map (λ f. f.opts.id) fns
  function_ids_of [] = refl
  function_ids_of (f ∷ fns) = ap (λ ids. f.opts.id ∷ ids) (function_ids_of fns)

  -- Then the registry has every function, each followed by its implicit one.
  pub registry_of_fresh :
      (fns : List (TriggerFunction W))
      → IsDistinct (map (λ f. f.opts.id) (expand fns))
      → registry_of fns ≡ indexed (expand fns)
  unfolding registry_of
  registry_of_fresh fns h =
      register_all_fresh fns [] (subst IsDistinct (sym (function_ids_of (expand fns))) h)

  pub values-indexed : (fns : List (TriggerFunction W)) → values (indexed fns) ≡ fns
  values-indexed [] = refl
  values-indexed (f ∷ fns) = ap (λ fs. f ∷ fs) (values-indexed fns)
