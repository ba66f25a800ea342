-- ===== src/Prelude/Dict.antt =====
-- A JavaScript `Map` with text keys: `set` on a key that is there keeps its place, and a new key
-- goes to the end, so the entries are in order of insertion.
use mathlib.Core.Path.{◌≡◌, refl, sym}
use mathlib.Core.Bool.{false≢true}
use mathlib.Core.Logic.{◌≢◌, inl, inr}
use mathlib.Core.Option.{Option, none, some}
use mathlib.Core.List.{List, [], ◌∷◌}
use native.Mathlib.Omega.{arith}
use triggerlink.Prelude.Tests.{if◌then◌else◌, Bool-cases}
use triggerlink.Prelude.Lists.{All}
use triggerlink.Prelude.Texts.{Text, ◌==◌, ==_iff, ==_refl}

abbrev pub IsDistinct : List Text → Type 0
IsDistinct [] = Unit
IsDistinct (x ∷ xs) = All (λ y. x ≢ y) xs × IsDistinct xs

module _ {ℓ} {V : Type ℓ} where
  -- `map.get(key)`
  unfoldable pub lookup : Text → List (Text × V) → Option V
  lookup key [] = none
  lookup key ((seen, val) ∷ rest) =
      let below = lookup key rest in if seen == key then some val else below

  -- `map.set(key, new)`
  unfoldable pub insert : Text → V → List (Text × V) → List (Text × V)
  insert key new [] = (key, new) ∷ []
  insert key new ((seen, val) ∷ rest) =
      let below = insert key new rest in
      if seen == key then (seen, new) ∷ rest else (seen, val) ∷ below

  pub lookup-insert :
      (key asked : Text) (new : V) (dict : List (Text × V))
      → lookup asked (insert key new dict) ≡ (if key == asked then some new else lookup asked dict)
  unfolding lookup insert
  lookup-insert key asked new [] = refl
  lookup-insert key asked new ((seen, val) ∷ rest) = ground (
    arith,
    lookup-insert key asked new rest,
    ==_iff seen asked,
    ==_iff seen key,
    ==_iff key asked,
  )

  pub lookup-insert_self :
      (k : Text) (v : V) (m : List (Text × V)) → lookup k (insert k v m) ≡ some v
  lookup-insert_self k v m = rw (lookup-insert, ==_refl k)

  -- the keys of the entries
  abbrev pub keys : List (Text × V) → List Text
  keys [] = []
  keys ((k, v) ∷ m) = k ∷ keys m

  -- the values of the entries, as `values()` gives them
  abbrev pub values : List (Text × V) → List V
  values [] = []
  values ((k, v) ∷ m) = v ∷ values m

  pub All-keys-insert :
      (P : Text → Type 0) (k : Text) (v : V) (m : List (Text × V))
      → P k
      → All P (keys m)
      → All P (keys (insert k v m))
  unfolding insert
  All-keys-insert P k v [] p h = (p, tt)
  All-keys-insert P k v ((j, w) ∷ m) p (q, h) = ground (arith, All-keys-insert P k v m p h)

  -- No key is in a map twice.
  pub keys-insert-IsDistinct :
      (k : Text) (v : V) (m : List (Text × V))
      → IsDistinct (keys m)
      → IsDistinct (keys (insert k v m))
  unfolding insert
  keys-insert-IsDistinct k v [] h = (tt, tt)
  keys-insert-IsDistinct k v ((j, w) ∷ m) (apart, h) = elim (Bool-cases (j == k)) [
    | inl same ↦ rw same (apart, h)
    | inr differ ↦ rw differ (
      All-keys-insert (λ y. j ≢ y) k v m (λ e. false≢true (rw (e, ==_refl k) at (sym differ)))
          apart,
      keys-insert-IsDistinct k v m h,
    )
  ]
