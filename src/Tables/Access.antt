-- ===== src/Tables/Access.antt =====
-- A table with both parts (src/ltable.c): `luaH_get`, `luaH_set` with an assignment, and `resize`.
use lunacy.Base.{
  ℕ, zero, suc, ◌-◌, ◌^◌, ◌<◌, ◌≡◌, Bool, true, false, ◌&&◌, List, [], ◌∷◌, ◌++◌, Option, none,
  some, ltb, leb, ◌==◌, if◌then◌else◌, length, set, take, drop, replicate,
}
use lunacy.Base.Int.{pos_part}
use lunacy.Object.{ceillog2}
use lunacy.Tables.{element}
use lunacy.Tables.Hash.{Keys, Node, Nodes, HashPart, put}
use lunacy.Tables.Hash

-- The keys that are whole numbers: `arrayindex`, where 0 stands for every key that is no positive `int`,
-- and `cast_num`.
pub record Indices {K : Type 0} (keys : Keys K) : Type 0 where
  pub arrayindex : K → ℕ
  pub of_index : ℕ → K
  pub arrayindex-of_index : (n : ℕ) → n < 2 ^ 31 → arrayindex (of_index n) ≡ n
  pub same_index : (k l : K) → keys.raw_equal k l ≡ true → arrayindex k ≡ arrayindex l
  pub one_key : (k : K) → 0 < arrayindex k → keys.raw_equal k (of_index (arrayindex k)) ≡ true

pub record Table (K V : Type 0) : Type 0 where
  pub array : List (Option V)
  pub hash : HashPart K V

-- What an operation gives. `no_free_place` is where `newkey` calls `rehash`.
pub data Outcome (A : Type 0) : Type 0 where
  done : A → Outcome A
  table_overflow no_free_place : Outcome A

abbrev pub and_then : {A B : Type 0} → (A → Outcome B) → Outcome A → Outcome B
and_then f (done a) = f a
and_then f table_overflow = table_overflow
and_then f no_free_place = no_free_place

-- MAXBITS
abbrev pub max_bits : ℕ
max_bits = 26

-- `0 < i && i <= t->sizearray`
abbrev pub in_array : ℕ → ℕ → Bool
in_array sizearray i = ltb 0 i && leb i sizearray

-- A node that was never used.
abbrev pub empty_node : {K V : Type 0} → Node K V
empty_node = record { key = none; val = none; next = none }

-- `setnodevector`, for an array of 2 ^ `lsize` nodes; 0 is for `dummynode`, which is one node.
abbrev pub node_vector : {K V : Type 0} → (size lastfree : ℕ) → Bool → HashPart K V
node_vector size lastfree is_dummy = record {
  node = λ i. empty_node;
  size = size;
  lastfree = lastfree;
  is_dummy = is_dummy;
}

unfoldable pub setnodevector : {K V : Type 0} → ℕ → Outcome (HashPart K V)
setnodevector size =
    let lsize = pos_part (ceillog2 size) in
    if size == 0
    then done (node_vector 1 0 true)
    else if ltb max_bits lsize
    then table_overflow
    else done (node_vector (2 ^ lsize) (2 ^ lsize) false)

-- `luaH_new`
unfoldable pub table_new : {K V : Type 0} → (narray nhash : ℕ) → Outcome (Table K V)
table_new narray nhash =
    and_then (λ h. done (record { array = replicate narray none; hash = h })) (setnodevector nhash)

-- The values of the array part from position `i` on, with their keys.
unfoldable pub slice_entries : {K V : Type 0} → (ℕ → K) → ℕ → List (Option V) → List (K × V)
slice_entries of_index i [] = []
slice_entries of_index i (none ∷ array) = slice_entries of_index (suc i) array
slice_entries of_index i (some v ∷ array) = (of_index i, v) ∷ slice_entries of_index (suc i) array

-- The values of the nodes below `i` from the last one on, with their keys. A value has a key.
abbrev pub entry : {K V : Type 0} → Option K → Option V → List (K × V) → List (K × V)
entry (some k) (some v) es = (k, v) ∷ es
entry none o es = es
entry (some k) none es = es

unfoldable pub node_entries : {K V : Type 0} → Nodes K V → ℕ → List (K × V)
node_entries node zero = []
node_entries node (suc i) = entry (node i).key (node i).val (node_entries node i)

-- The array part with a new size.
abbrev pub resized_array : {V : Type 0} → List (Option V) → ℕ → List (Option V)
resized_array array nasize = take nasize (array ++ replicate (nasize - length array) none)

abbrev pub with_hash : {K V : Type 0} → Table K V → Option (HashPart K V) → Outcome (Table K V)
with_hash t none = no_free_place
with_hash t (some h) = done (record t { hash = h })

module _ {K V : Type 0} (keys : Keys K) (indices : Indices keys) where
  -- `luaH_get`
  unfoldable pub get : Table K V → K → Option V
  get t k =
      if in_array (length t.array) (indices.arrayindex k)
      then element t.array (indices.arrayindex k)
      else Hash.get keys t.hash k

  -- `luaH_set` and an assignment to its place.
  unfoldable pub assign : Table K V → K → Option V → Outcome (Table K V)
  assign t k v =
      if in_array (length t.array) (indices.arrayindex k)
      then done (record t { array = set t.array (indices.arrayindex k - 1) v })
      else with_hash t (put keys t.hash k v)

  unfoldable pub reinsert : List (K × V) → Table K V → Outcome (Table K V)
  reinsert [] t = done t
  reinsert ((k, v) ∷ es) t = and_then (reinsert es) (assign t k (some v))

  -- What `resize` inserts again: the vanishing slice, then the hash part.
  unfoldable pub entries : Table K V → ℕ → List (K × V)
  entries t nasize =
      slice_entries indices.of_index (suc nasize) (drop nasize t.array)
      ++ node_entries t.hash.node t.hash.size

  unfoldable pub resize : Table K V → ℕ → ℕ → Outcome (Table K V)
  resize t nasize nhsize =
      and_then
        (λ h.
          reinsert (entries t nasize) (record { array = resized_array t.array nasize; hash = h }))
        (setnodevector nhsize)
