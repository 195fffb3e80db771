-- ===== src/Tables/Hash.antt =====
-- The hash part of a table (src/ltable.c): an array of nodes, chained by the index of the next one. A
-- key is of any type, with the test `luaO_rawequalObj` and its main position, as `mainposition` gives
-- it for the size of the array.
pub mod Measure
pub mod Chains
pub mod Search
pub mod Values
pub mod Added
pub mod Reuse
pub mod Extend
pub mod Move
pub mod Newkey
pub mod Assign
pub mod Used
pub mod Room
use lunacy.Base.{
  ℕ, zero, suc, ◌+◌, ◌<◌, ◌≡◌, Bool, true, false, not, ◌&&◌, ◌||◌, Option, none, some, ◌==◌,
  if◌then◌else◌,
}
use lunacy.Tables.{is_some}

-- Raw equality and the main positions. The laws hold of every key but NaN, which is never one.
pub record Keys (K : Type 0) : Type 0 where
  pub raw_equal : K → K → Bool
  pub main_position : (size : ℕ) → K → ℕ
  pub raw_equal_refl : (k : K) → raw_equal k k ≡ true
  pub raw_equal_sym : (k l : K) → raw_equal k l ≡ true → raw_equal l k ≡ true
  pub raw_equal_trans :
      (k l m : K) → raw_equal k l ≡ true → raw_equal l m ≡ true → raw_equal k m ≡ true
  pub same_position :
      (size : ℕ) (k l : K) → raw_equal k l ≡ true → main_position size k ≡ main_position size l
  pub position-lt : (size : ℕ) (k : K) → 0 < size → main_position size k < size

pub record Node (K V : Type 0) : Type 0 where
  pub key : Option K
  pub val : Option V
  pub next : Option ℕ

abbrev pub Nodes : Type 0 → Type 0 → Type 0
Nodes K V = ℕ → Node K V

abbrev pub update : {A : Type 0} → (ℕ → A) → ℕ → A → ℕ → A
update f i a j = if j == i then a else f j

-- `node`, `sizenode` and `lastfree`; `is_dummy` if `node` is `dummynode`.
pub record HashPart (K V : Type 0) : Type 0 where
  pub node : Nodes K V
  pub size : ℕ
  pub lastfree : ℕ
  pub is_dummy : Bool

-- A nil key is raw equal to no key.
abbrev pub key_is : {K : Type 0} → Keys K → Option K → K → Bool
key_is keys none k = false
key_is keys (some l) k = keys.raw_equal l k

module _ {K V : Type 0} where
  abbrev pub val_at : Nodes K V → Option ℕ → Option V
  val_at node none = none
  val_at node (some i) = (node i).val

  -- `getfreepos`, from `lastfree` down: the new `lastfree`, if the place is free.
  unfoldable pub getfreepos : Nodes K V → ℕ → Option ℕ
  getfreepos node zero = none
  getfreepos node (suc lastfree) =
      let below = getfreepos node lastfree in
      if is_some (node lastfree).key then below else some lastfree

  -- `while (gnext(othern) != mp) othern = gnext(othern)`
  unfoldable pub previous : ℕ → Nodes K V → ℕ → ℕ → ℕ
  previous zero node othern mp = othern
  previous (suc rounds) node othern mp = elim (node othern).next [
    | none ↦ othern
    | some j ↦ let further = previous rounds node j mp in if j == mp then othern else further
  ]

  abbrev pub set_next : Nodes K V → ℕ → Option ℕ → Nodes K V
  set_next node i j = update node i (record (node i) { next = j })

  abbrev pub set_key : Nodes K V → ℕ → K → Nodes K V
  set_key node i k = update node i (record (node i) { key = some k })

  abbrev pub set_val : Nodes K V → ℕ → Option V → Nodes K V
  set_val node i v = update node i (record (node i) { val = v })

  -- The colliding node at `mp` goes to the free place `n`, behind `prev`; `mp` is free then.
  unfoldable pub move_node : Nodes K V → (prev mp n : ℕ) → Nodes K V
  move_node node prev mp n =
      let node1 = set_next node prev (some n) in
      let node2 = update node1 n (node1 mp) in set_val (set_next node2 mp none) mp none

  -- The free place `n` comes behind `mp` in its chain.
  unfoldable pub chain_node : Nodes K V → (mp n : ℕ) → Nodes K V
  chain_node node mp n = set_next (set_next node n (node mp).next) mp (some n)

-- The main position of the key at `mp`.
abbrev pub position_of : {K : Type 0} → Keys K → ℕ → ℕ → Option K → ℕ
position_of keys size mp none = mp
position_of keys size mp (some l) = keys.main_position size l

module _ {K V : Type 0} (keys : Keys K) where
  abbrev pub has_key : Node K V → K → Bool
  has_key n k = key_is keys n.key k

  -- The loop of the searches, `do ... while (n)`, over at most `rounds` nodes.
  unfoldable pub search : ℕ → Nodes K V → ℕ → K → Option ℕ
  search zero node i k = none
  search (suc rounds) node i k =
      if has_key (node i) k
      then some i
      else elim (node i).next [ none ↦ none | some j ↦ search rounds node j k ]

  -- The node of a key. A chain has no node twice, so its length is at most the size.
  unfoldable pub find : HashPart K V → K → Option ℕ
  find t k = search t.size t.node (keys.main_position t.size k) k

  -- The value that `luaH_get` points to: nil if there is no node for the key.
  unfoldable pub get : HashPart K V → K → Option V
  get t k = val_at t.node (find t k)

  -- A collision at `mp`, with the free place `n`.
  unfoldable pub collide : HashPart K V → K → ℕ → ℕ → HashPart K V × ℕ
  collide t k mp n =
      let othern = position_of keys t.size mp (t.node mp).key in
      let moved = move_node t.node (previous t.size t.node othern mp) mp n in
      let chained = chain_node t.node mp n in
      if othern == mp
      then (record t { node = set_key chained n k; lastfree = n }, n)
      else (record t { node = set_key moved mp k; lastfree = n }, mp)

  -- `newkey`: the table with a node for the key, whose value is nil, and that node; none if the table
  -- has to grow first.
  unfoldable pub newkey : HashPart K V → K → Option (HashPart K V × ℕ)
  newkey t k =
      let mp = keys.main_position t.size k in
      if is_some (t.node mp).val || t.is_dummy
      then elim (getfreepos t.node t.lastfree) [ none ↦ none | some n ↦ some (collide t k mp n) ]
      else some (record t { node = set_key t.node mp k }, mp)

  -- `luaH_set`: the node for the key, which is added if there is none.
  unfoldable pub place_for : HashPart K V → K → Option (HashPart K V × ℕ)
  place_for t k = elim (find t k) [ none ↦ newkey t k | some i ↦ some (t, i) ]

  -- An assignment through the pointer that `luaH_set` gives.
  unfoldable pub put : HashPart K V → K → Option V → Option (HashPart K V)
  put t k v = elim (place_for t k) [
    | none ↦ none
    | some (t', i) ↦ some (record t' { node = set_val t'.node i v })
  ]
