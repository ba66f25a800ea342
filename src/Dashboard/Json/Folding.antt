-- ===== src/Dashboard/Json/Folding.antt =====
-- Which lines the tree of web/src/components/JsonTree.jsx shows.
use triggerlink.Prelude.{
  ℕ, suc, ◌≡◌, some, List, [], ◌∷◌, ◌++◌, Bool, Bool-cases, inl, inr, true, All, All-append, subst,
}
use triggerlink.Value.{
  Value, Values, nil, cons, Fields, end, field, undefined, null, bool, num, str, arr, obj,
}
use triggerlink.Dashboard.Json.{Label, index, key, Line, node_lines, value_lines, field_lines, tree}

-- A path all of whose nodes before the last are open.
pub data IsVisible (is_open : List Label → Bool) : List Label → Type 0 where
  root : IsVisible is_open []
  child :
      {path : List Label} (l : Label)
      → IsVisible is_open path
      → is_open path ≡ true
      → IsVisible is_open (path ++ l ∷ [])

abbrev pub AreVisible : (is_open : List Label → Bool) → List Line → Type 0
AreVisible is_open lines = All (λ line. IsVisible is_open line.path) lines

mutual
  unfolding node_lines

  node_lines-AreVisible :
      (is_open : List Label → Bool) (path : List Label) (v : Value)
      → IsVisible is_open path
      → AreVisible is_open (node_lines is_open path v)
  node_lines-AreVisible is_open path (arr vs) here = elim (Bool-cases (is_open path)) [
    | inl opened ↦ rw opened (here, value_lines-AreVisible is_open path 0 vs here opened)
    | inr closed ↦ rw closed (here, tt)
  ]
  node_lines-AreVisible is_open path (obj fs) here = elim (Bool-cases (is_open path)) [
    | inl opened ↦ rw opened (here, field_lines-AreVisible is_open path fs here opened)
    | inr closed ↦ rw closed (here, tt)
  ]
  node_lines-AreVisible is_open path undefined here = (here, tt)
  node_lines-AreVisible is_open path null here = (here, tt)
  node_lines-AreVisible is_open path (bool b) here = (here, tt)
  node_lines-AreVisible is_open path (num n) here = (here, tt)
  node_lines-AreVisible is_open path (str s) here = (here, tt)

  value_lines-AreVisible :
      (is_open : List Label → Bool) (path : List Label) (i : ℕ) (vs : Values)
      → IsVisible is_open path
      → is_open path ≡ true
      → AreVisible is_open (value_lines is_open path i vs)
  value_lines-AreVisible is_open path i nil here opened = tt
  value_lines-AreVisible is_open path i (cons v vs) here opened =
      All-append _ _ _ (node_lines-AreVisible is_open _ v (child (index i) here opened))
        (value_lines-AreVisible is_open path (suc i) vs here opened)

  field_lines-AreVisible :
      (is_open : List Label → Bool) (path : List Label) (fs : Fields)
      → IsVisible is_open path
      → is_open path ≡ true
      → AreVisible is_open (field_lines is_open path fs)
  field_lines-AreVisible is_open path end here opened = tt
  field_lines-AreVisible is_open path (field k v fs) here opened =
      All-append _ _ _ (node_lines-AreVisible is_open _ v (child (key k) here opened))
        (field_lines-AreVisible is_open path fs here opened)

-- Every line that the tree shows stands below open nodes only.
pub tree-AreVisible :
    (is_open : List Label → Bool) (v : Value) (lines : List Line)
    → tree is_open v ≡ some lines
    → AreVisible is_open lines
unfolding tree
tree-AreVisible is_open undefined lines e = absurd (cc)
tree-AreVisible is_open null lines e = absurd (cc)
tree-AreVisible is_open v lines e =
    subst (AreVisible is_open) (cc) (node_lines-AreVisible is_open [] v root)
