-- ===== src/Dashboard/Json.antt =====
-- The tree of a JSON value: web/src/components/JsonTree.jsx, as the lines that it shows.
pub mod Folding
use triggerlink.Prelude.{
  ℕ, suc, Option, none, some, List, [], ◌∷◌, ◌++◌, Bool, true, false, Text, if◌then◌else◌, ◌==◌,
  nat_eq, not, ◌&&◌,
}
use triggerlink.Value.{Value, Values, nil, cons, Fields, end, field, undefined, null, arr, obj}

-- `k` of an entry
pub data Label : Type 0 where
  index : ℕ → Label
  key : Text → Label

pub data Shown : Type 0 where
  leaf : Value → Shown
  node : (opened : Bool) → (is_array : Bool) → (entries : ℕ) → Shown

-- A line, with the labels that lead to it, the root's none.
pub record Line : Type 0 where
  pub path : List Label
  pub shown : Shown

abbrev count_values : Values → ℕ
count_values nil = 0
count_values (cons v vs) = suc (count_values vs)

abbrev count_fields : Fields → ℕ
count_fields end = 0
count_fields (field k v fs) = suc (count_fields fs)

-- `is_open` is the state of the nodes, by their paths.
unfoldable mutual
  pub node_lines : (is_open : List Label → Bool) → List Label → Value → List Line
  node_lines is_open path (arr vs) =
      let inner = value_lines is_open path 0 vs in
      record { path = path; shown = node (is_open path) true (count_values vs) }
      ∷ (if is_open path then inner else [])
  node_lines is_open path (obj fs) =
      let inner = field_lines is_open path fs in
      record { path = path; shown = node (is_open path) false (count_fields fs) }
      ∷ (if is_open path then inner else [])
  node_lines is_open path v = record { path = path; shown = leaf v } ∷ []

  pub value_lines : (is_open : List Label → Bool) → List Label → ℕ → Values → List Line
  value_lines is_open path i nil = []
  value_lines is_open path i (cons v vs) =
      node_lines is_open (path ++ index i ∷ []) v ++ value_lines is_open path (suc i) vs

  pub field_lines : (is_open : List Label → Bool) → List Label → Fields → List Line
  field_lines is_open path end = []
  field_lines is_open path (field k v fs) =
      node_lines is_open (path ++ key k ∷ []) v ++ field_lines is_open path fs

abbrev same_label : Label → Label → Bool
same_label (index i) (index j) = nat_eq i j
same_label (key k) (key l) = k == l
same_label l m = false

-- whether a path goes through another, or ends there
unfoldable pub starts_with : List Label → List Label → Bool
starts_with [] q = true
starts_with (l ∷ p) [] = false
starts_with (l ∷ p) (m ∷ q) = same_label l m && starts_with p q

-- A click on the button of the node at `path`. The nodes below one that is closed are taken away, and
-- closed when they come back.
unfoldable pub click : List Label → (List Label → Bool) → List Label → Bool
click path is_open q =
    if starts_with path q then starts_with q path && not (is_open path) else is_open q

-- the tree; none is the word `null` in its place
unfoldable pub tree : (is_open : List Label → Bool) → Value → Option (List Line)
tree is_open undefined = none
tree is_open null = none
tree is_open v = some (node_lines is_open [] v)
