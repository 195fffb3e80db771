-- ===== src/Tables/Set.antt =====
-- `rehash` and `luaH_set` (src/ltable.c): the sizes that `rehash` counts are enough.
use lunacy.Base.{
  ℕ, zero, suc, ◌+◌, ◌-◌, ◌*◌, ◌^◌, ◌≤◌, ◌<◌, ◌≡◌, refl, sym, ap, ◌∙◌, inl, inr, List, [], ◌∷◌,
  Option, ◌&&◌, ltb, leb, if_both, if◌then◌else◌, length, length-set, get_or, drop, replicate,
  arith,
}
use native.Mathlib.Nat.{pow-le-pow_right}
use lunacy.Base.Int.{pos_part}
use lunacy.Object.{ceillog2}
use lunacy.Tables.Hash.{Keys}
use lunacy.Tables.Access.{
  Indices, Table, Outcome, done, table_overflow, no_free_place, max_bits, get, assign, and_then,
  slice_entries, node_entries, entries, resize,
}
use lunacy.Tables.Reinsert.{
  inside, SoundTable, spilled, Fits, StoredIf, Attempt, assign-Attempt, assign-Stored,
}
use lunacy.Tables.Resize.{Resized, resize-Resized}
use lunacy.Tables.Rehash.{
  max_asize, present, numusearray_loop, numusearray, countint, count_entries, numusehash, new_sizes,
  rehash, or_grow, table_set,
}
use lunacy.Tables.Counts.{
  fitting, countint-prefix, count_entries-prefix, slice-fitting, length-slice_entries, spilled-drop,
  fitting-spilled, spilled-append,
}
use lunacy.Tables.Slices.{prefix, prefix-zeros, computesizes-Chosen, loop-prefix, loop-present}

abbrev zeros : List ℕ
zeros = replicate (max_bits + 1) 0

module _ {K : Type 0} (keys : Keys K) (indices : Indices keys) where
  abbrev one_fitting : ℕ → K → ℕ
  one_fitting size k = if inside keys indices size k then 1 else 0

  length-countint : (k : K) (nums : List ℕ) → length (countint keys indices k nums).0 ≡ length nums
  unfolding countint
  length-countint k nums =
      let a = indices.arrayindex k in
      let i = pos_part (ceillog2 a) in
      if_both (λ (r : List ℕ × ℕ). length r.0 ≡ length nums) (ltb 0 a && leb a max_asize)
        (length-set nums i (get_or nums i 0 + 1)) refl

  length-count_entries :
      {V : Type 0} (es : List (K × V)) (nums : List ℕ)
      → length (count_entries keys indices es nums).0 ≡ length nums
  unfolding count_entries
  length-count_entries [] nums = refl
  length-count_entries ((k, v) ∷ es) nums =
      length-count_entries es (countint keys indices k nums).0 ∙ length-countint k nums

length-loop :
    {V : Type 0} (array : List (Option V)) (nums : List ℕ) (ttlg i : ℕ)
    → length (numusearray_loop array nums ttlg i).0 ≡ length nums
unfolding numusearray_loop
length-loop array [] ttlg i = refl
length-loop array (c ∷ nums) ttlg i =
    let lim = if ltb (length array) ttlg then length array else ttlg in
    if_both (λ (r : List ℕ × ℕ). length r.0 ≡ suc (length nums))
      (ltb (length array) ttlg && ltb lim i) refl
      (ap suc (length-loop array nums (ttlg * 2) (i + (suc lim - i))))

module _ {K V : Type 0} (keys : Keys K) (indices : Indices keys) where
  abbrev array_entries : Table K V → List (K × V)
  array_entries t = slice_entries indices.of_index 1 t.array

  abbrev hash_entries : Table K V → List (K × V)
  hash_entries t = node_entries t.hash.node t.hash.size

  abbrev hash_nums : Table K V → List ℕ
  hash_nums t = (count_entries keys indices (hash_entries t) (numusearray t.array zeros).0).0

  abbrev nums : Table K V → K → List ℕ
  nums t k = (countint keys indices k (hash_nums t)).0

  nums-prefix :
      (t : Table K V) (k : K) (j : ℕ)
      → SoundTable keys indices t
      → prefix j (nums t k)
        ≤ fitting keys indices (2 ^ j) (array_entries t)
          + fitting keys indices (2 ^ j) (hash_entries t)
          + one_fitting keys indices (2 ^ j) k
  nums-prefix t k j sound =
      let in_array = loop-prefix t.array zeros 1 1 j (omega arith) (omega arith) in
      let slice =
        slice-fitting keys indices (2 ^ j) 1 t.array (omega arith)
          (omega (arith, sound.array-lt)) in
      let in_hash =
        count_entries-prefix keys indices j (hash_entries t) (numusearray t.array zeros).0 in
      let extra = countint-prefix keys indices j k (hash_nums t) in
      let one : suc (1 * 2 ^ j) - 1 ≡ suc (2 ^ j) - 1 = omega arith in
      let e = ap (present t.array 1) one in omega (arith, prefix-zeros j (max_bits + 1))

  length-nums : (t : Table K V) (k : K) → length (nums t k) ≡ 27
  length-nums t k =
      length-countint keys indices k (hash_nums t)
      ∙ (length-count_entries keys indices (hash_entries t) (numusearray t.array zeros).0
          ∙ length-loop t.array zeros 1 1)

  array-present :
      (t : Table K V)
      → length t.array ≤ 2 ^ 26
      → (numusearray t.array zeros).1 ≡ length (array_entries t)
  array-present t small =
      let e : suc (length t.array) - 1 ≡ length t.array = omega arith in
      (loop-present t.array zeros 1 1 (omega arith) (omega arith) (inl (omega arith)) (omega arith)
        ∙ ap (present t.array 1) e)
      ∙ sym (length-slice_entries keys indices 1 t.array)

  -- The entries that are inserted again and go to the hash part are those that do not fit.
  entries-spilled :
      (t : Table K V) (n : ℕ)
      → spilled keys indices n (entries keys indices t n)
          + fitting keys indices n (array_entries t)
          + fitting keys indices n (hash_entries t)
        ≤ length (array_entries t) + length (hash_entries t)
  unfolding entries
  entries-spilled t n =
      let slice = slice_entries indices.of_index (suc n) (drop n t.array) in
      let split = spilled-append keys indices n slice (hash_entries t) in
      let dropped = spilled-drop keys indices n 1 n t.array in
      let e =
        ap (λ i. spilled keys indices n (slice_entries indices.of_index i (drop n t.array)))
          one_more in
      omega (
        arith,
        fitting-spilled keys indices n (array_entries t),
        fitting-spilled keys indices n (hash_entries t),
      )
    where
      one_more : 1 + n ≡ suc n
      one_more = omega arith

  -- `totaluse - na` nodes are enough if at least `na` keys fit.
  enough_nodes :
      (t : Table K V) (k : K) (n na : ℕ)
      → length t.array ≤ 2 ^ 26
      → na
        ≤ fitting keys indices n (array_entries t)
          + fitting keys indices n (hash_entries t)
          + one_fitting keys indices n k
      → spilled keys indices n (entries keys indices t n)
          + (if inside keys indices n k then 0 else 1)
        ≤ (numusearray t.array zeros).1 + length (hash_entries t) + 1 - na
  enough_nodes t k n na small few =
      let all = entries-spilled t n in
      let counted = array-present t small in ground (arith, all, counted, few)

  -- Of a sound table whose array part has at most 2 ^ 26 elements, `rehash` gives the new array part at
  -- most 2 ^ 26 elements too, and the new node array a place for every key that does not go there, the
  -- new key included.
  pub new_sizes_lem :
      (t : Table K V) (k : K)
      → SoundTable keys indices t
      → length t.array ≤ 2 ^ 26
      → ((new_sizes keys indices t k).0 ≤ 2 ^ 26)
        × (spilled keys indices
                (new_sizes keys indices t k).0
                (entries keys indices t (new_sizes keys indices t k).0)
              + (if inside keys indices (new_sizes keys indices t k).0 k then 0 else 1)
            ≤ (new_sizes keys indices t k).1)
  unfolding new_sizes numusehash
  new_sizes_lem t k sound small =
      let narray =
        (numusearray t.array zeros).1
        + (count_entries keys indices (hash_entries t) (numusearray t.array zeros).0).1
        + (countint keys indices k (hash_nums t)).1 in
      elim (computesizes-Chosen (nums t k) narray) [
        | inl (none_kept, no_keys) ↦ (omega arith, enough_nodes t k _ _ small (omega arith))
        | inr (j, less, size, count) ↦
            let j-le : j ≤ 26 = omega (arith, length-nums t k) in
            let up : 2 ^ j ≤ 2 ^ 26 = pow-le-pow_right (omega arith) j-le in
            let kept = nums-prefix t k j sound in
            (omega arith, enough_nodes t k _ _ small (rw size (omega arith)))
      ]

  -- The new value is stored, and every other key keeps its own.
  abbrev pub SetTo : Table K V → K → Option V → Outcome (Table K V) → Type 0
  SetTo t k v (done t') =
      SoundTable keys indices t'
      × (length t'.array ≤ 2 ^ 26)
      × ((l : K) → get keys indices t' l ≡ (if keys.raw_equal l k then v else get keys indices t l))
  SetTo t k v table_overflow = 2 ^ 26 < (new_sizes keys indices t k).1
  SetTo t k v no_free_place = ⊥

  assign-done :
      (rounds : ℕ) (t : Table K V) (k : K) (v : Option V)
      → SoundTable keys indices t
      → Fits keys t.hash (if inside keys indices (length t.array) k then 0 else 1)
      → table_set keys indices rounds t k v ≡ assign keys indices t k v
  unfolding table_set
  assign-done zero t k v sound fits = refl
  assign-done (suc rounds) t k v sound fits =
      go (assign keys indices t k v) (assign-Stored keys indices t k v 0 sound fits)
    where
      go :
          (o : Outcome (Table K V))
          → StoredIf keys indices t k v 0 o
          → or_grow o
              (and_then (λ t'. table_set keys indices rounds t' k v) (rehash keys indices t k))
            ≡ o
      go (done u) h = refl
      go table_overflow h = absurd h
      go no_free_place h = absurd h

  set_again :
      (t u : Table K V) (k : K) (v : Option V)
      → length u.array ≤ 2 ^ 26
      → ((l : K) → get keys indices u l ≡ get keys indices t l)
      → (o : Outcome (Table K V)) → StoredIf keys indices u k v 0 o
      → SetTo t k v o
  set_again t u k v few same table_overflow h = absurd h
  set_again t u k v few same no_free_place h = h
  set_again t u k v few same (done t') ((sound', kept, values), more) =
      (sound', omega arith, λ l. values l ∙ ap (λ o. if keys.raw_equal l k then v else o) (same l))

  -- After `rehash` the assignment succeeds.
  grown-SetTo :
      (rounds : ℕ) (t : Table K V) (k : K) (v : Option V)
      → (new_sizes keys indices t k).0 ≤ 2 ^ 26
      → (r : Outcome (Table K V))
      → Resized keys indices t
          (new_sizes keys indices t k).0
          (new_sizes keys indices t k).1
          (if inside keys indices (new_sizes keys indices t k).0 k then 0 else 1)
          r
      → SetTo t k v (and_then (λ t'. table_set keys indices rounds t' k v) r)
  grown-SetTo rounds t k v few table_overflow many = many
  grown-SetTo rounds t k v few no_free_place bad = bad
  grown-SetTo rounds t k v few (done u) (u_sound, size, fits, values) =
      let room : Fits keys u.hash (if inside keys indices (length u.array) k then 0 else 1) =
        rw size fits in
      rw (assign-done rounds u k v u_sound room) (
        set_again t u k v (omega arith) values (assign keys indices u k v)
          (assign-Stored keys indices u k v 0 u_sound room))

  -- `luaH_set` and an assignment, on a sound table whose array part has at most 2 ^ 26 elements: the
  -- value is stored for the key and every other key keeps its own, whether or not the table had to
  -- grow, one `rehash` is enough, and the new table is sound with as small an array part; it fails only
  -- when `rehash` asks for more than 2 ^ 26 nodes.
  pub table_set-SetTo :
      (rounds : ℕ) (t : Table K V) (k : K) (v : Option V)
      → SoundTable keys indices t
      → length t.array ≤ 2 ^ 26
      → SetTo t k v (table_set keys indices (suc rounds) t k v)
  unfolding table_set rehash
  table_set-SetTo rounds t k v sound small =
      attempt (assign keys indices t k v) (assign-Attempt keys indices t k v sound)
    where
      attempt :
          (o : Outcome (Table K V))
          → Attempt keys indices t k v o
          → SetTo t k v (
              or_grow o (
                and_then
                  (λ t'. table_set keys indices rounds t' k v)
                  (resize keys indices t
                    (new_sizes keys indices t k).0
                    (new_sizes keys indices t k).1)))
      attempt (done t') (sound', same, values) = (sound', omega arith, values)
      attempt table_overflow h = absurd h
      attempt no_free_place h =
          let (few, enough) = new_sizes_lem t k sound small in
          grown-SetTo rounds t k v few
            (resize keys indices t (new_sizes keys indices t k).0 (new_sizes keys indices t k).1)
            (resize-Resized keys indices t (new_sizes keys indices t k).0
              (new_sizes keys indices t k).1
              (if inside keys indices (new_sizes keys indices t k).0 k then 0 else 1) sound
              (omega arith) enough)
