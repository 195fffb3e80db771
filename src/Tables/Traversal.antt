-- ===== src/Tables/Traversal.antt =====
-- A whole traversal by `luaH_next` (src/ltable.c).
use lunacy.Base.{
  ℕ, zero, suc, ◌+◌, ◌-◌, ◌≤◌, ◌<◌, ◌≡◌, refl, sym, ap, ◌∙◌, inl, inr, true, false, List, [], ◌∷◌,
  ◌++◌, Option, none, some, Bool-cases, length, arith,
}
use lunacy.Tables.{element}
use lunacy.Tables.Hash.{Keys, Node, Nodes, HashPart, find, search, has_key, key_is, val_at}
use lunacy.Tables.Hash
use lunacy.Tables.Hash.Search.{search-only}
use lunacy.Tables.Hash.Added.{same_some}
use lunacy.Tables.Access.{Indices, Table}
use lunacy.Tables.Reinsert.{inside, SoundTable}
use lunacy.Tables.Next.{
  Step, next_entry, finished, invalid_key, next_node, findindex, or_finished, or_next, step_from,
  table_next, traverse,
}
use lunacy.Tables.Scans.{
  listed, scan, First, scan-First, array_at, node_at, next_element-scan, next_node-scan,
  entry_parts,
}

module _ {K V : Type 0} (keys : Keys K) (indices : Indices keys) (t : Table K V)
    (sound : SoundTable keys indices t) where
  -- The entries from an index on: of the array part, then of the hash part.
  abbrev entries_from : ℕ → List (K × V)
  entries_from i =
      listed (array_at indices.of_index t.array) (length t.array - i) i
      ++ listed (node_at t.hash.node) (t.hash.size - (i - length t.array)) (i - length t.array)

  findindex-array :
      (q : ℕ) (e : K × V)
      → q < length t.array
      → array_at indices.of_index t.array q ≡ some e
      → findindex keys indices t (some e.0) ≡ some (suc q)
  unfolding findindex
  findindex-array q e less at =
      let key = (entry_parts (some (indices.of_index (suc q))) (element t.array (suc q)) e at).0 in
      let index : indices.arrayindex e.0 ≡ suc q =
        ap indices.arrayindex (same_some key refl)
        ∙ indices.arrayindex-of_index (suc q) (omega (arith, sound.array-lt)) in
      rw index (ground arith)

  findindex-node :
      (q : ℕ) (e : K × V)
      → q < t.hash.size
      → node_at t.hash.node q ≡ some e
      → findindex keys indices t (some e.0) ≡ some (suc (q + length t.array))
  unfolding findindex find Hash.get
  findindex-node q e less at =
      let (key, val) = entry_parts (t.hash.node q).key (t.hash.node q).val e at in
      let has : has_key keys (t.hash.node q) e.0 ≡ true =
        ap (λ o. key_is keys o e.0) key ∙ keys.raw_equal_refl e.0 in
      let found : find keys t.hash e.0 ≡ some q =
        search-only keys t.hash.size t.hash.node sound.sound.chained sound.sound.room q e.0 less
          has in
      let value : Hash.get keys t.hash e.0 ≡ some e.1 = ap (val_at t.hash.node) found ∙ val in
      let outside : inside keys indices (length t.array) e.0 ≡ false =
        elim (Bool-cases (inside keys indices (length t.array) e.0)) [
          | inl in_part ↦ let nil = sound.apart e.0 in_part in absurd cc
          | inr out ↦ out
        ] in
      rw (outside, found) refl

  -- The entries past one of the array part, and past one of the hash part.
  past_element :
      (i q : ℕ) (e : K × V)
      → i ≤ q
      → q < length t.array
      → listed (array_at indices.of_index t.array) (length t.array - i) i
        ≡ e ∷ listed (array_at indices.of_index t.array) (i + (length t.array - i) - suc q) (suc q)
      → e ∷ entries_from (suc q) ≡ entries_from i
  past_element i q e from to others =
      let n = length t.array in
      let count : i + (n - i) - suc q ≡ n - suc q = omega arith in
      let none_yet : i - n ≡ 0 = omega arith in
      let none_still : suc q - n ≡ 0 = omega arith in
      let first =
        others ∙ ap (λ c. e ∷ listed (array_at indices.of_index t.array) c (suc q)) count in
      ap
        (λ j.
          e
          ∷ (listed (array_at indices.of_index t.array) (n - suc q) (suc q)
              ++ listed (node_at t.hash.node) (t.hash.size - j) j))
        none_still
      ∙ sym (
          ap
            (λ j.
              listed (array_at indices.of_index t.array) (n - i) i
              ++ listed (node_at t.hash.node) (t.hash.size - j) j)
            none_yet
          ∙ ap (λ l. l ++ listed (node_at t.hash.node) (t.hash.size - 0) 0) first)

  past_node :
      (i q : ℕ) (e : K × V)
      → i - length t.array ≤ q
      → q < t.hash.size
      → listed (array_at indices.of_index t.array) (length t.array - i) i ≡ []
      → listed (node_at t.hash.node) (t.hash.size - (i - length t.array)) (i - length t.array)
        ≡ e
          ∷ listed
              (node_at t.hash.node)
              (i - length t.array + (t.hash.size - (i - length t.array)) - suc q)
              (suc q)
      → e ∷ entries_from (suc (q + length t.array)) ≡ entries_from i
  past_node i q e from to no_more others =
      let n = length t.array in
      let j = i - n in
      let count : j + (t.hash.size - j) - suc q ≡ t.hash.size - suc q = omega arith in
      let over : n - suc (q + n) ≡ 0 = omega arith in
      let back : suc (q + n) - n ≡ suc q = omega arith in
      let first = others ∙ ap (λ c. e ∷ listed (node_at t.hash.node) c (suc q)) count in
      ap
        (λ c.
          e
          ∷ (listed (array_at indices.of_index t.array) c (suc (q + n))
              ++ listed (node_at t.hash.node) (t.hash.size - (suc (q + n) - n)) (suc (q + n) - n)))
        over
      ∙ (ap (λ x. e ∷ listed (node_at t.hash.node) (t.hash.size - x) x) back
          ∙ sym (ap (λ l. l ++ listed (node_at t.hash.node) (t.hash.size - j) j) no_more ∙ first))

  step_from-scan :
      (i : ℕ)
      → step_from keys indices t i
        ≡ or_next keys indices (scan (array_at indices.of_index t.array) (length t.array - i) i) (
            or_finished keys indices (
              scan (node_at t.hash.node) (t.hash.size - (i - length t.array)) (i - length t.array)))
  unfolding step_from
  step_from-scan i =
      let n = length t.array in
      ap
        (λ o.
          or_next keys indices o
            (or_finished keys indices (next_node t.hash.node (t.hash.size - (i - n)) (i - n))))
        (next_element-scan indices.of_index t.array (n - i) i)
      ∙ ap
          (λ p.
            or_next keys indices (scan (array_at indices.of_index t.array) (n - i) i)
              (or_finished keys indices p))
          (next_node-scan t.hash.node (t.hash.size - (i - n)) (i - n))

  abbrev proceed : ℕ → Step K V → Option (List (K × V))
  proceed fuel s = elim s [
    | finished ↦ some []
    | invalid_key ↦ none
    | next_entry e ↦ elim (traverse keys indices fuel t (some e.0)) [
      | none ↦ none
      | some es ↦ some (e ∷ es)
    ]
  ]

  one_step :
      (fuel i : ℕ) (key : Option K)
      → findindex keys indices t key ≡ some i
      → traverse keys indices (suc fuel) t key ≡ proceed fuel (step_from keys indices t i)
  unfolding traverse table_next
  one_step fuel i key at =
      ap (λ o. proceed fuel (elim o [ none ↦ invalid_key | some j ↦ step_from keys indices t j ]))
        at

  traverse_from :
      (fuel i : ℕ) (key : Option K)
      → i ≤ length t.array + t.hash.size
      → length t.array + t.hash.size < fuel + i
      → findindex keys indices t key ≡ some i
      → traverse keys indices fuel t key ≡ some (entries_from i)
  traverse_from zero i key le enough at = absurd (omega arith)
  traverse_from (suc fuel) i key le enough at =
      let n = length t.array in
      (one_step fuel i key at ∙ ap (proceed fuel) (step_from-scan i))
      ∙ go (scan (array_at indices.of_index t.array) (n - i) i)
          (scan-First (array_at indices.of_index t.array) (n - i) i)
          (scan (node_at t.hash.node) (t.hash.size - (i - n)) (i - n))
          (scan-First (node_at t.hash.node) (t.hash.size - (i - n)) (i - n))
          (λ j key'. traverse_from fuel j key')
    where
      Rest : Type 0
      Rest =
          (j : ℕ) (key' : Option K)
          → j ≤ length t.array + t.hash.size
          → length t.array + t.hash.size < fuel + j
          → findindex keys indices t key' ≡ some j
          → traverse keys indices fuel t key' ≡ some (entries_from j)

      go :
          (o : Option (K × V))
          → First (array_at indices.of_index t.array) (length t.array - i) i o
          → (p : Option (K × V))
          → First (node_at t.hash.node) (t.hash.size - (i - length t.array)) (i - length t.array) p
          → Rest
          → proceed fuel (or_next keys indices o (or_finished keys indices p))
            ≡ some (entries_from i)
      go none no_more none no_node rest =
          let n = length t.array in
          sym (
            ap (λ l. some (l ++ listed (node_at t.hash.node) (t.hash.size - (i - n)) (i - n)))
              no_more
            ∙ ap some no_node)
      go none no_more (some e) (q, from, to, here, others) rest =
          let inner : q < t.hash.size = omega arith in
          let r =
            rest (suc (q + length t.array)) (some e.0) (omega arith) (omega arith)
              (findindex-node q e inner here) in
          ap (λ o. elim o [ none ↦ none | some es ↦ some (e ∷ es) ]) r
          ∙ ap some (past_node i q e from inner no_more others)
      go (some e) (q, from, to, here, others) p after rest =
          let inner : q < length t.array = omega arith in
          let r =
            rest (suc q) (some e.0) (omega arith) (omega arith) (findindex-array q e inner here) in
          ap (λ o. elim o [ none ↦ none | some es ↦ some (e ∷ es) ]) r
          ∙ ap some (past_element i q e from inner others)

  -- A traversal of a sound table that nothing is assigned to, from nil on, comes to every value of the
  -- array part in order and then to that of every node in order, each with its key and once, and ends
  -- after as many steps as there are elements and nodes, and one, at most.
  pub traverse-all :
      (rounds : ℕ)
      → length t.array + t.hash.size < rounds
      → traverse keys indices rounds t none
        ≡ some (
            listed (array_at indices.of_index t.array) (length t.array) 0
            ++ listed (node_at t.hash.node) t.hash.size 0)
  unfolding findindex
  traverse-all rounds enough =
      traverse_from rounds 0 none (omega arith) (omega arith) refl
      ∙ (ap
            (λ c. some (
              listed (array_at indices.of_index t.array) c 0
              ++ listed (node_at t.hash.node) (t.hash.size - (0 - length t.array))
                  (0 - length t.array)))
            all
          ∙ (ap
                (λ j. some (
                  listed (array_at indices.of_index t.array) (length t.array) 0
                  ++ listed (node_at t.hash.node) (t.hash.size - j) j))
                start
              ∙ ap
                  (λ c. some (
                    listed (array_at indices.of_index t.array) (length t.array) 0
                    ++ listed (node_at t.hash.node) c 0))
                  nodes))
    where
      all : length t.array - 0 ≡ length t.array
      all = omega arith

      start : 0 - length t.array ≡ 0
      start = omega arith

      nodes : t.hash.size - 0 ≡ t.hash.size
      nodes = omega arith
