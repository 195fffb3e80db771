-- ===== src/Tables/Next.antt =====
-- The traversal of a table, `findindex` and `luaH_next` (src/ltable.c).
use lunacy.Base.{ℕ, zero, suc, ◌+◌, ◌-◌, List, [], ◌∷◌, Option, none, some, if◌then◌else◌, length}
use lunacy.Tables.{element}
use lunacy.Tables.Hash.{Keys, Nodes, find}
use lunacy.Tables.Access.{Indices, Table, in_array}

-- What `luaH_next` gives: the next key with its value, the end, or the error for a key that the table
-- does not have.
pub data Step (K V : Type 0) : Type 0 where
  next_entry : K × V → Step K V
  finished invalid_key : Step K V

-- The loop over the array part from index `i` on.
unfoldable pub next_element :
    {K V : Type 0} → (ℕ → K) → List (Option V) → (rounds i : ℕ) → Option (K × V)
next_element of_index array zero i = none
next_element of_index array (suc rounds) i = elim (element array (suc i)) [
  | none ↦ next_element of_index array rounds (suc i)
  | some v ↦ some (of_index (suc i), v)
]

-- The key and the value of a node. A value has a key.
abbrev pub node_entry : {K V : Type 0} → Option K → Option V → Option (K × V)
node_entry none v = none
node_entry (some k) none = none
node_entry (some k) (some v) = some (k, v)

-- The loop over the hash part.
unfoldable pub next_node : {K V : Type 0} → Nodes K V → (rounds i : ℕ) → Option (K × V)
next_node node zero i = none
next_node node (suc rounds) i = elim (node_entry (node i).key (node i).val) [
  | none ↦ next_node node rounds (suc i)
  | some e ↦ some e
]

module _ {K V : Type 0} (keys : Keys K) (indices : Indices keys) where
  abbrev pub after_array : Table K V → Option ℕ → Option ℕ
  after_array t none = none
  after_array t (some i) = some (suc (i + length t.array))

  -- `findindex`, with 1 added, as `luaH_next` does; nil is the key before the first one.
  unfoldable pub findindex : Table K V → Option K → Option ℕ
  findindex t none = some 0
  findindex t (some k) =
      let i = indices.arrayindex k in
      if in_array (length t.array) i then some i else after_array t (find keys t.hash k)

  abbrev pub or_finished : Option (K × V) → Step K V
  or_finished none = finished
  or_finished (some e) = next_entry e

  abbrev pub or_next : Option (K × V) → Step K V → Step K V
  or_next none further = further
  or_next (some e) further = next_entry e

  -- The two loops from index `i` on.
  unfoldable pub step_from : Table K V → ℕ → Step K V
  step_from t i =
      let n = length t.array in
      or_next (next_element indices.of_index t.array (n - i) i)
        (or_finished (next_node t.hash.node (t.hash.size - (i - n)) (i - n)))

  -- `luaH_next`
  unfoldable pub table_next : Table K V → Option K → Step K V
  table_next t key = elim (findindex t key) [ none ↦ invalid_key | some i ↦ step_from t i ]

  -- A traversal with at most `rounds` steps: the entries that it comes to, if it ends.
  unfoldable pub traverse : ℕ → Table K V → Option K → Option (List (K × V))
  traverse zero t key = none
  traverse (suc rounds) t key = elim (table_next t key) [
    | finished ↦ some []
    | invalid_key ↦ none
    | next_entry e ↦ elim (traverse rounds t (some e.0)) [ none ↦ none | some es ↦ some (e ∷ es) ]
  ]
