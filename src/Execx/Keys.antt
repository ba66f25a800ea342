-- ===== src/Execx/Keys.antt =====
-- Memo keys of sdk-ts/src/execx.ts: what `nextHash` hands out within one call of a function.
use triggerlink.Prelude.{
  IsDistinct, append_cancel, ℕ, ◌+◌, ◌≤◌, ◌≡◌, ◌≢◌, refl, sym, subst, ◌∙◌, List, [], ◌∷◌, ◌++◌,
  arith, Text, All, All-append_right, All-map, lookup-insert, ==_iff, ◌==◌, if◌then◌else◌,
}
use triggerlink.Prelude.Decimal.{print, print_injective, print-IsDigit, IsDigit}
use triggerlink.Execx.{Host, ExecCtx, hash_input, count_of, next_hash}

abbrev NoColon : ℕ → Type 0
NoColon c = c ≢ b':'

-- A text is cut at its last colon in one way.
last_colon :
    (s t u v : Text)
    → All NoColon u
    → All NoColon v
    → s ++ (b':' ∷ u) ≡ t ++ (b':' ∷ v)
    → (s ≡ t) × (u ≡ v)
last_colon [] [] u v hu hv e = (refl, cc)
last_colon [] (d ∷ t) u v hu hv e =
    let inside : u ≡ t ++ (b':' ∷ v) = cc in
    absurd ((All-append_right NoColon t _ (rw inside at hu)).0 refl)
last_colon (c ∷ s) [] u v hu hv e =
    let inside : v ≡ s ++ (b':' ∷ u) = cc in
    absurd ((All-append_right NoColon s _ (rw inside at hv)).0 refl)
last_colon (c ∷ s) (d ∷ t) u v hu hv e =
    let (same, rest) = last_colon s t u v hu hv (cc) in (cc, rest)

print-NoColon : (n : ℕ) → All NoColon (print n)
print-NoColon n = All-map IsDigit NoColon (λ c h. omega arith) (print n) (print-IsDigit n)

-- Within one function the text that is hashed determines the step id and the number of the call.
pub hash_input_injective :
    (f s t : Text) (m n : ℕ) → hash_input f s m ≡ hash_input f t n → (s ≡ t) × (m ≡ n)
unfolding hash_input
hash_input_injective f s t m n e =
    let tails : b':' ∷ (s ++ (b':' ∷ print m)) ≡ b':' ∷ (t ++ (b':' ∷ print n)) =
      append_cancel f _ _ e in
    let (ids, numbers) = last_colon s t _ _ (print-NoColon m) (print-NoColon n) (cc) in
    (ids, print_injective m n numbers)

-- SHA-256 has no collision among the inputs of one function.
abbrev pub CollisionFree : Host → Text → Type 0
CollisionFree host f =
    (s t : Text) (m n : ℕ)
    → host.sha256_hex (hash_input f s m) ≡ host.sha256_hex (hash_input f t n)
    → hash_input f s m ≡ hash_input f t n

-- The keys that the calls with the step ids of a list get, in order.
unfoldable pub keys_of : Host → List Text → ExecCtx → List Text
keys_of host [] ec = []
keys_of host (id ∷ ids) ec = let (h, ec') = next_hash host id ec in h ∷ keys_of host ids ec'

module _ (host : Host) where
  -- `h` is the key of a call that is still to come
  abbrev IsLater : ExecCtx → Text → Type 0
  IsLater ec h =
      (id : Text) × (n : ℕ) × (count_of id ec ≤ n)
      × (h ≡ host.sha256_hex (hash_input ec.function_id id n))

  pub count_of-next_hash :
      (id other : Text) (ec : ExecCtx)
      → count_of other (next_hash host id ec).1
        ≡ (if id == other then count_of id ec + 1 else count_of other ec)
  unfolding next_hash
  count_of-next_hash id other ec = rw lookup-insert (ground arith)

  count_of_le :
      (id other : Text) (ec : ExecCtx) → count_of other ec ≤ count_of other (next_hash host id ec).1
  count_of_le id other ec = rw count_of-next_hash (ground (arith, ==_iff id other))

  count_of-next_hash_self :
      (id : Text) (ec : ExecCtx) → count_of id (next_hash host id ec).1 ≡ count_of id ec + 1
  count_of-next_hash_self id ec = rw count_of-next_hash (ground (arith, ==_iff id id))

  pub function_id-next_hash :
      (id : Text) (ec : ExecCtx) → (next_hash host id ec).1.function_id ≡ ec.function_id
  unfolding next_hash
  function_id-next_hash id ec = refl

  pub next_hash_key :
      (id : Text) (ec : ExecCtx)
      → (next_hash host id ec).0 ≡ host.sha256_hex (hash_input ec.function_id id (count_of id ec))
  unfolding next_hash
  next_hash_key id ec = refl

  IsLater-next_hash :
      (id : Text) (ec : ExecCtx) (h : Text) → IsLater (next_hash host id ec).1 h → IsLater ec h
  IsLater-next_hash id ec h (other, n, bound, key) =
      (other, n, omega (arith, count_of_le id other ec), rw (function_id-next_hash id ec) at key)

  -- A key that has been handed out is not handed out again.
  key-ne-later :
      (id : Text) (ec : ExecCtx) (h : Text)
      → CollisionFree host ec.function_id
      → IsLater (next_hash host id ec).1 h
      → (next_hash host id ec).0 ≢ h
  key-ne-later id ec h free (other, n, bound, key) e =
      let (same, numbers) = hash_input_injective _ id other (count_of id ec) n (
        free id other (count_of id ec) n
          (sym (next_hash_key id ec) ∙ e ∙ (rw (function_id-next_hash id ec) at key))) in
      absurd (
        omega (
          arith,
          numbers,
          count_of-next_hash_self id ec,
          subst (λ t. count_of t (next_hash host id ec).1 ≤ n) (sym same) bound,
        ))

  keys_of-IsLater : (ids : List Text) (ec : ExecCtx) → All (IsLater ec) (keys_of host ids ec)
  unfolding keys_of
  keys_of-IsLater [] ec = tt
  keys_of-IsLater (id ∷ ids) ec = (
    (id, count_of id ec, omega arith, next_hash_key id ec),
    All-map _ _ (λ h l. IsLater-next_hash id ec h l) _
        (keys_of-IsLater ids (next_hash host id ec).1),
  )

  keys_of-IsDistinct_lem :
      (ids : List Text) (ec : ExecCtx)
      → CollisionFree host ec.function_id
      → IsDistinct (keys_of host ids ec)
  unfolding keys_of
  keys_of-IsDistinct_lem [] ec free = tt
  keys_of-IsDistinct_lem (id ∷ ids) ec free =
      let ec' = (next_hash host id ec).1 in
      (
        All-map _ _ (λ h l. key-ne-later id ec h free l) _ (keys_of-IsLater ids ec'),
        keys_of-IsDistinct_lem ids ec' (rw (function_id-next_hash id ec) free),
      )

-- All memo keys that one call of a function gets are different, whatever the step ids, repeated ones
-- included, if SHA-256 has no collision among the function's inputs.
pub keys_of-IsDistinct :
    (host : Host) (ids : List Text) (ec : ExecCtx)
    → CollisionFree host ec.function_id
    → IsDistinct (keys_of host ids ec)
keys_of-IsDistinct host ids ec free = keys_of-IsDistinct_lem host ids ec free
