-- ===== src/Execx/Ordering.antt =====
-- The order in which the steps of one call of a function ask `nextHash` (sdk-ts/src/execx.ts) for their keys.
use triggerlink.Prelude.{
  ◌≡◌, refl, sym, ap, List, [], ◌∷◌, Bool-cases, false, inl, inr, Text, ◌==◌, ==_iff, arith,
}
use mathlib.Core.Logic.{∥∥₁_map}
use mathlib.Core.List.{Perm, Permᴰ}
use mathlib.Core.List.Permᴰ
use triggerlink.Execx.Keys.{count_of-next_hash, function_id-next_hash, next_hash_key}
use triggerlink.Execx.{Host, ExecCtx, count_of, next_hash}

-- Each step id of a list, with the key that it gets.
unfoldable pub keyed : Host → List Text → ExecCtx → List (Text × Text)
keyed host [] ec = []
keyed host (id ∷ ids) ec = let (h, ec') = next_hash host id ec in (id, h) ∷ keyed host ids ec'

-- The next call of every step has the same number in both.
record IsLike (ec ec' : ExecCtx) : Type 0 where
  one_function : ec.function_id ≡ ec'.function_id
  count : (id : Text) → count_of id ec ≡ count_of id ec'

IsLike-refl : (ec : ExecCtx) → IsLike ec ec
IsLike-refl ec = record { one_function = refl; count = λ id. refl }

module _ (host : Host) where
  key_of-IsLike :
      (id : Text) (ec ec' : ExecCtx)
      → IsLike ec ec'
      → (next_hash host id ec).0 ≡ (next_hash host id ec').0
  unfolding next_hash
  key_of-IsLike id ec ec' like = rw (like.one_function, like.count id)

  next_hash-IsLike :
      (id : Text) (ec ec' : ExecCtx)
      → IsLike ec ec'
      → IsLike (next_hash host id ec).1 (next_hash host id ec').1
  next_hash-IsLike id ec ec' like = record {
    one_function = rw (function_id-next_hash, function_id-next_hash, like.one_function);
    count = λ other. rw (
      count_of-next_hash host id other ec,
      count_of-next_hash host id other ec',
      like.count id,
      like.count other,
    );
  }

  keyed-IsLike :
      (ids : List Text) (ec ec' : ExecCtx) → IsLike ec ec' → keyed host ids ec ≡ keyed host ids ec'
  unfolding keyed
  keyed-IsLike [] ec ec' like = refl
  keyed-IsLike (id ∷ ids) ec ec' like =
      rw (key_of-IsLike id ec ec' like, keyed-IsLike ids _ _ (next_hash-IsLike id ec ec' like))

  -- the calls of two steps commute
  next_hash_twice :
      (a b : Text) (ec : ExecCtx)
      → IsLike
          (next_hash host b (next_hash host a ec).1).1
          (next_hash host a (next_hash host b ec).1).1
  next_hash_twice a b ec = record {
    one_function = rw (
      function_id-next_hash, function_id-next_hash, function_id-next_hash, function_id-next_hash,
    );
    count = λ id. ground (
      arith,
      count_of-next_hash host b id (next_hash host a ec).1,
      count_of-next_hash host a id (next_hash host b ec).1,
      count_of-next_hash host a id ec,
      count_of-next_hash host b id ec,
      count_of-next_hash host a b ec,
      count_of-next_hash host b a ec,
      ==_iff a id,
      ==_iff b id,
      ==_iff a b,
      ==_iff b a,
    );
  }

  -- the calls of other steps do not count
  key_of-next_hash :
      (a b : Text) (ec : ExecCtx)
      → (a == b) ≡ false
      → (next_hash host b (next_hash host a ec).1).0 ≡ (next_hash host b ec).0
  key_of-next_hash a b ec apart = rw (
    next_hash_key host b (next_hash host a ec).1,
    next_hash_key host b ec,
    function_id-next_hash,
    count_of-next_hash host a b,
    apart,
  )

  ==_comm : (a b : Text) → (a == b) ≡ false → (b == a) ≡ false
  ==_comm a b apart = ground (arith, ==_iff a b, ==_iff b a)

  keyed-swap_apart :
      (a b : Text) (ids : List Text) (ec : ExecCtx)
      → (a == b) ≡ false
      → Permᴰ (keyed host (a ∷ b ∷ ids) ec) (keyed host (b ∷ a ∷ ids) ec)
  unfolding keyed
  keyed-swap_apart a b ids ec apart = rw (sym (keyed-IsLike ids _ _ (next_hash_twice a b ec))) (
      Permᴰ.swap (ap (λ h. (a, h)) (sym (key_of-next_hash b a ec (==_comm a b apart))))
        (ap (λ h. (b, h)) (key_of-next_hash a b ec apart)))

  keyed-swap :
      (a b : Text) (ids : List Text) (ec : ExecCtx)
      → Permᴰ (keyed host (a ∷ b ∷ ids) ec) (keyed host (b ∷ a ∷ ids) ec)
  keyed-swap a b ids ec = elim (Bool-cases (a == b)) [
    | inl same ↦ rw ((==_iff a b).0 same) (Permᴰ.refl _)
    | inr apart ↦ keyed-swap_apart a b ids ec apart
  ]

  keyed-Permᴰ :
      (ids others : List Text) (ec : ExecCtx)
      → Permᴰ ids others
      → Permᴰ (keyed host ids ec) (keyed host others ec)
  unfolding keyed
  keyed-Permᴰ _ _ ec Permᴰ.nil = Permᴰ.nil
  keyed-Permᴰ _ _ ec (Permᴰ.cons {a} {b} {l₁} {l₂} e d) =
      rw e (Permᴰ.cons refl (keyed-Permᴰ l₁ l₂ (next_hash host b ec).1 d))
  keyed-Permᴰ _ _ ec (Permᴰ.swap {a} {b} {a'} {b'} {l} e f) =
      rw (sym e, sym f) (keyed-swap a b l ec)
  keyed-Permᴰ _ _ ec (Permᴰ.trans {l₁} {l₂} {l₃} d d') =
      Permᴰ.trans (keyed-Permᴰ l₁ l₂ ec d) (keyed-Permᴰ l₂ l₃ ec d')

-- In whatever order the steps of one call of a function ask for their keys, each step id gets the same keys:
-- if the ids are a permutation of others, so are the pairs of an id and its key.
pub keyed-Perm :
    (host : Host) (ids others : List Text) (ec : ExecCtx)
    → Perm ids others
    → Perm (keyed host ids ec) (keyed host others ec)
keyed-Perm host ids others ec same = ∥∥₁_map same (λ d. keyed-Permᴰ host ids others ec d)
