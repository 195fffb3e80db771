-- ===== src/Tables/Hash/Room.antt =====
-- The free places of the hash part (src/ltable.c): `newkey` finds one as long as a node has no key.
use lunacy.Base.{
  ℕ, suc, ◌≤◌, ◌<◌, ◌≡◌, ◌≢◌, refl, ap, ◌∙◌, ◌⊎◌, inl, inr, true, false, ◌||◌, Option, none, some,
  ==-cases, if_cases, if_both, or_left, ◌==◌, arith,
}
use lunacy.Tables.{is_some}
use lunacy.Tables.Hash.{
  Keys, Nodes, HashPart, getfreepos, find, collide, newkey, position_of, previous, set_val,
  place_for, put,
}
use lunacy.Tables.Hash.Newkey.{Sound, key-of_value}
use lunacy.Tables.Hash.Used.{
  keyed, used, Grown, used-Grown, bare_node, FullFrom, Passed, getfreepos-Passed, used-keyed,
  set_val-keyed, set_key-Grown, chain_node-Grown, move_node-Grown,
}

i_below : (lastfree i : ℕ) → (i < lastfree) ⊎ (lastfree ≤ i)
i_below lastfree i = ground arith

module _ {K V : Type 0} (keys : Keys K) where
  -- A node array with at most `u` keys, whose places from `lastfree` on have one.
  abbrev pub Roomy : HashPart K V → ℕ → Type 0
  Roomy t u = (t.is_dummy ≡ false) × FullFrom t.node t.lastfree t.size × (used t.node t.size ≤ u)

  abbrev pub RoomyIf : ℕ → ℕ → Option (HashPart K V × ℕ) → Type 0
  RoomyIf size u none = ⊥
  RoomyIf size u (some (t', i)) = Roomy t' u × (t'.size ≡ size)

  Roomy-Grown :
      (t : HashPart K V) (node' : Nodes K V) (n lastfree' u : ℕ)
      → Grown t.node node' n
      → t.is_dummy ≡ false
      → used t.node t.size ≤ u
      → ((i : ℕ) → lastfree' ≤ i → i < t.size → i ≢ n → keyed t.node i ≡ true)
      → Roomy (record t { node = node'; lastfree = lastfree' }) (suc u)
  Roomy-Grown t node' n lastfree' u g own_nodes few full =
      let more = used-Grown t.node node' n t.size g in
      (
        own_nodes,
        (λ i from to. elim (==-cases i n) [
          | inl here ↦ ap (keyed node') here ∙ g.1
          | inr there ↦ g.0 i there ∙ full i from to there
        ]),
        omega arith,
      )

  newkey-Roomy :
      (t : HashPart K V) (k : K) (u : ℕ)
      → Sound keys t
      → Roomy t u
      → u < t.size
      → RoomyIf t.size (suc u) (newkey keys t k)
  unfolding newkey collide
  newkey-Roomy t k u sound (own_nodes, full, few) less =
      let mp = keys.main_position t.size k in
      if_cases (RoomyIf t.size (suc u)) (is_some (t.node mp).val || t.is_dummy)
        (λ taken. go taken (getfreepos t.node t.lastfree) (getfreepos-Passed t.node t.lastfree))
        (λ bare. (
          Roomy-Grown t _ mp t.lastfree u (set_key-Grown t.node mp k) own_nodes few
              (λ i from to off. full i from to),
          refl,
        ))
    where
      go :
          (is_some (t.node (keys.main_position t.size k)).val || t.is_dummy) ≡ true
          → (o : Option ℕ) → Passed t.node t.lastfree o
          → RoomyIf t.size (suc u) (elim o [
            | none ↦ none
            | some n ↦ some (collide keys t k (keys.main_position t.size k) n)
          ])
      go taken none h =
          let (i, inside, bare) = bare_node t.node t.size (omega arith) in
          let some_key : keyed t.node i ≡ true = elim (i_below t.lastfree i) [
            | inl below ↦ h i (omega arith) below
            | inr above ↦ full i above inside
          ] in
          absurd cc
      go taken (some n) h =
          let mp = keys.main_position t.size k in
          let from_n : (i : ℕ) → n ≤ i → i < t.size → i ≢ n → keyed t.node i ≡ true =
            λ i from to off. elim (i_below t.lastfree i) [
              | inl below ↦ h i (ground arith) below
              | inr above ↦ full i above to
            ] in
          let (l, mp_key) =
            key-of_value keys (t.node mp) (sound.chained.empty mp)
              (or_left _ t.is_dummy taken own_nodes) in
          if_both (λ (r : HashPart K V × ℕ). Roomy r.0 (suc u) × (r.0.size ≡ t.size))
            (position_of keys t.size mp (t.node mp).key == mp)
            (Roomy-Grown t _ n n u (chain_node-Grown t.node mp n k) own_nodes few from_n, refl)
            (
              Roomy-Grown t _ n n u
                  (move_node-Grown t.node
                    (previous t.size t.node (position_of keys t.size mp (t.node mp).key) mp) mp n k
                    (ap is_some mp_key))
                  own_nodes few from_n,
              refl,
            )

  -- An assignment to a hash part that has room succeeds, and uses up at most one place.
  abbrev pub PutRoom : ℕ → ℕ → Option (HashPart K V) → Type 0
  PutRoom size u none = ⊥
  PutRoom size u (some t') = Roomy t' u × (t'.size ≡ size)

  pub put-Roomy :
      (t : HashPart K V) (k : K) (v : Option V) (u : ℕ)
      → Sound keys t
      → Roomy t u
      → u < t.size
      → PutRoom t.size (suc u) (put keys t k v)
  unfolding put place_for
  put-Roomy t k v u sound room less = assign (place_for keys t k) (go (find keys t k))
    where
      go :
          (o : Option ℕ)
          → RoomyIf t.size (suc u) (elim o [ none ↦ newkey keys t k | some i ↦ some (t, i) ])
      go none = newkey-Roomy t k u sound room less
      go (some i) = let few = room.2 in ((room.0, room.1, omega arith), refl)

      assign :
          (o : Option (HashPart K V × ℕ))
          → RoomyIf t.size (suc u) o
          → PutRoom t.size (suc u) (elim o [
            | none ↦ none
            | some (t', i) ↦ some (record t' { node = set_val t'.node i v })
          ])
      assign none h = h
      assign (some (t', i)) ((own_nodes, full, few), same) =
          let kept = set_val-keyed t'.node i v in
          let count = used-keyed t'.node (set_val t'.node i v) t'.size kept in
          ((own_nodes, (λ x from to. kept x ∙ full x from to), omega arith), same)
