-- ===== src/Tables/Rehash.antt =====
-- `rehash` and the counts that it is based on, and `luaH_set` with it (src/ltable.c).
use lunacy.Base.{
  ℕ, zero, suc, ◌+◌, ◌-◌, ◌*◌, ◌^◌, ◌&&◌, List, [], ◌∷◌, Option, ltb, leb, if◌then◌else◌, length,
  set, get_or, replicate,
}
use lunacy.Base.Int.{pos_part}
use lunacy.Object.{ceillog2}
use lunacy.Tables.{is_some, element, computesizes}
use lunacy.Tables.Hash.{Keys, HashPart}
use lunacy.Tables.Access.{
  Indices, Table, Outcome, done, table_overflow, no_free_place, max_bits, node_entries, and_then,
  assign, resize,
}

-- MAXASIZE
abbrev pub max_asize : ℕ
max_asize = 2 ^ max_bits

-- `nums[i]++`
abbrev pub increment : List ℕ → ℕ → List ℕ
increment nums i = set nums i (get_or nums i 0 + 1)

-- The values among `count` elements from key `i` on.
unfoldable pub present : {V : Type 0} → List (Option V) → (i count : ℕ) → ℕ
present array i zero = 0
present array i (suc count) =
    let rest = present array (suc i) count in if is_some (element array i) then suc rest else rest

-- The loop of `numusearray` from a slice on: the new counts, and what it adds to `ause`.
unfoldable pub numusearray_loop :
    {V : Type 0} → List (Option V) → List ℕ → (ttlg i : ℕ) → List ℕ × ℕ
numusearray_loop array [] ttlg i = ([], 0)
numusearray_loop array (c ∷ nums) ttlg i =
    let sizearray = length array in
    let lim = if ltb sizearray ttlg then sizearray else ttlg in
    let lc = present array i (suc lim - i) in
    let rest = numusearray_loop array nums (ttlg * 2) (i + (suc lim - i)) in
    if ltb sizearray ttlg && ltb lim i then (c ∷ nums, 0) else ((c + lc) ∷ rest.0, lc + rest.1)

abbrev pub numusearray : {V : Type 0} → List (Option V) → List ℕ → List ℕ × ℕ
numusearray array nums = numusearray_loop array nums 1 1

-- `newkey` without a free place.
abbrev pub or_grow : {A : Type 0} → Outcome A → Outcome A → Outcome A
or_grow (done a) grown = done a
or_grow table_overflow grown = table_overflow
or_grow no_free_place grown = grown

module _ {K : Type 0} (keys : Keys K) (indices : Indices keys) where
  unfoldable pub countint : K → List ℕ → List ℕ × ℕ
  countint key nums =
      let k = indices.arrayindex key in
      if ltb 0 k && leb k max_asize then (increment nums (pos_part (ceillog2 k)), 1) else (nums, 0)

module _ {K V : Type 0} (keys : Keys K) (indices : Indices keys) where
  -- The loop of `numusehash` on the nodes with values: the counts, and what it adds to `*pnasize`.
  unfoldable pub count_entries : List (K × V) → List ℕ → List ℕ × ℕ
  count_entries [] nums = (nums, 0)
  count_entries ((k, v) ∷ es) nums =
      let counted = countint keys indices k nums in
      let rest = count_entries es counted.0 in (rest.0, counted.1 + rest.1)

  -- The counts, the addition to `*pnasize`, and `totaluse`.
  unfoldable pub numusehash : HashPart K V → List ℕ → List ℕ × ℕ × ℕ
  numusehash t nums =
      let es = node_entries t.node t.size in
      let counted = count_entries es nums in (counted.0, counted.1, length es)

  -- The new sizes of the two parts.
  unfoldable pub new_sizes : Table K V → K → ℕ × ℕ
  new_sizes t ek =
      let from_array = numusearray t.array (replicate (max_bits + 1) 0) in
      let from_hash = numusehash t.hash from_array.0 in
      let extra = countint keys indices ek from_hash.0 in
      let totaluse = from_array.1 + from_hash.2 + 1 in
      let sizes = computesizes extra.0 (from_array.1 + from_hash.1 + extra.1) in
      (sizes.0, totaluse - sizes.1)

  unfoldable pub rehash : Table K V → K → Outcome (Table K V)
  rehash t ek = let sizes = new_sizes t ek in resize keys indices t sizes.0 sizes.1

  -- `luaH_set` and an assignment to its place, of a key that is not nil or NaN, with at most `rounds`
  -- calls of `rehash`.
  unfoldable pub table_set : ℕ → Table K V → K → Option V → Outcome (Table K V)
  table_set zero t k v = assign keys indices t k v
  table_set (suc rounds) t k v =
      or_grow (assign keys indices t k v) (and_then (λ t'. table_set rounds t' k v) (rehash t k))
