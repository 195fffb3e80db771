-- ===== src/Tables/Hash/Newkey.antt =====
-- `newkey` (src/ltable.c) on each of its branches.
use mathlib.Core.Path.{subst}
use lunacy.Base.{
  ℕ, zero, suc, ◌≤◌, ◌<◌, ◌≡◌, ◌≢◌, refl, sym, ap, ◌∙◌, inl, inr, true, false, ◌||◌, Option, none,
  some, if_cases, Bool-cases, or_parts, or_left, ◌==◌, arith,
}
use lunacy.Tables.{is_some}
use lunacy.Tables.Hash.{
  Keys, Node, Nodes, HashPart, key_is, has_key, find, get, getfreepos, previous, position_of,
  collide, newkey,
}
use lunacy.Tables.Hash.Chains.{Chained}
use lunacy.Tables.Hash.Search.{search-only, previous-next, shallow}
use lunacy.Tables.Hash.Values.{Keeps-same, NewNodes}
use lunacy.Tables.Hash.Reuse.{set_key_lem}
use lunacy.Tables.Hash.Extend.{chain_node_lem}
use lunacy.Tables.Hash.Move.{move_node_lem}

-- What holds of a hash part between two operations.
pub record Sound {K V : Type 0} (keys : Keys K) (t : HashPart K V) : Type 0 where
  pub chained : Chained keys t.size t.node
  pub room : 0 < t.size
  pub free-le : t.lastfree ≤ t.size
  pub dummy_full : t.is_dummy ≡ true → t.lastfree ≡ 0

-- A place is free and in the array.
abbrev pub IsFree : {K V : Type 0} → Nodes K V → ℕ → Option ℕ → Type 0
IsFree node lastfree none = Unit
IsFree node lastfree (some n) = (n < lastfree) × ((node n).key ≡ none)

getfreepos-IsFree :
    {K V : Type 0} (node : Nodes K V) (lastfree : ℕ)
    → IsFree node lastfree (getfreepos node lastfree)
unfolding getfreepos
getfreepos-IsFree node zero = tt
getfreepos-IsFree {K} node (suc lastfree) =
    let rest = wider (getfreepos node lastfree) (getfreepos-IsFree node lastfree) in
    if_cases (IsFree node (suc lastfree)) (is_some (node lastfree).key) (λ h. rest)
      (λ h. (omega arith, is_none (node lastfree).key h))
  where
    wider : (o : Option ℕ) → IsFree node lastfree o → IsFree node (suc lastfree) o
    wider none h = tt
    wider (some n) (less, free) = (omega arith, free)

    is_none : (o : Option K) → is_some o ≡ false → o ≡ none
    is_none none h = refl
    is_none (some x) h = absurd cc

module _ {K V : Type 0} (keys : Keys K) where
  -- The new table has a node for the key, whose value is nil, and no other value is changed.
  abbrev pub Added : HashPart K V → K → HashPart K V → ℕ → Type 0
  Added t k t' i =
      Sound keys t'
      × (i < t'.size)
      × (has_key keys (t'.node i) k ≡ true)
      × ((l : K) → get keys t' l ≡ get keys t l)

  pub absent :
      (t : HashPart K V) (k : K)
      → Sound keys t
      → find keys t k ≡ none
      → (i : ℕ) → i < t.size
      → has_key keys (t.node i) k ≡ false
  unfolding find
  absent t k sound gone i less = elim (Bool-cases (has_key keys (t.node i) k)) [
    | inl at ↦
        let here = search-only keys t.size t.node sound.chained sound.room i k less at in
        let bad : some i ≡ none = sym here ∙ gone in absurd cc
    | inr out ↦ out
  ]

  -- The result of a branch, for the new nodes.
  added :
      (t : HashPart K V) (k : K) (node' : Nodes K V) (i lastfree' : ℕ)
      → Sound keys t
      → NewNodes keys t.size t.node node' k i
      → i < t.size
      → lastfree' ≤ t.lastfree
      → Added t k (record t { node = node'; lastfree = lastfree' }) i
  unfolding get find
  added t k node' i lastfree' sound (c, keeps, back, at) less le = (
    record {
      chained = c;
      room = sound.room;
      free-le = let f = sound.free-le in omega arith;
      dummy_full = λ h. let f = sound.dummy_full h in omega arith;
    },
    less,
    ap (λ o. key_is keys o k) at ∙ keys.raw_equal_refl k,
    Keeps-same keys t.size sound.room t.node node' sound.chained c keeps back,
  )

  abbrev pub AddedIf : HashPart K V → K → Option (HashPart K V × ℕ) → Type 0
  AddedIf t k none = Unit
  AddedIf t k (some (t', i)) = Added t k t' i

  collide-Added :
      (t : HashPart K V) (k l : K) (mp n : ℕ)
      → Sound keys t
      → find keys t k ≡ none
      → mp ≡ keys.main_position t.size k
      → (t.node mp).key ≡ some l
      → n < t.lastfree
      → (t.node n).key ≡ none
      → Added t k (collide keys t k mp n).0 (collide keys t k mp n).1
  unfolding collide
  collide-Added t k l mp n sound gone at_main mp_key n_less free =
      let c = sound.chained in
      let none_has = absent t k sound gone in
      let mp_inside : mp < t.size =
        subst (λ m. m < t.size) (sym at_main) (keys.position-lt t.size k sound.room) in
      let n_inside : n < t.size = let f = sound.free-le in omega arith in
      let own = ap (position_of keys t.size mp) mp_key in
      if_cases (λ (r : HashPart K V × ℕ). Added t k r.0 r.1)
        (position_of keys t.size mp (t.node mp).key == mp)
        (λ home.
          let at_home : keys.main_position t.size l ≡ mp = sym own ∙ ground arith in
          added t k _ n n sound
            (chain_node_lem keys t.size t.node c k none_has mp n at_main mp_inside n_inside l mp_key
              at_home free)
            n_inside (omega arith))
        (λ away.
          let off : keys.main_position t.size l ≢ mp =
            λ e. let at = own ∙ e in absurd (ground arith) in
          let start = keys.position-lt t.size l sound.room in
          let link =
            previous-next keys t.size t.node c t.size (keys.main_position t.size l) mp
              (c.reached mp l mp_inside mp_key) off
              (shallow keys t.size t.node c sound.room (keys.main_position t.size l) start) in
          let before =
            subst (λ o. (t.node (previous t.size t.node o mp)).next ≡ some mp) (sym own) link in
          added t k _ mp n sound
            (move_node_lem keys t.size t.node c k none_has mp n _ at_main mp_inside n_inside l
              mp_key off free before)
            mp_inside (omega arith))

  is_none : (o : Option V) → is_some o ≡ false → o ≡ none
  is_none none h = refl
  is_none (some v) h = absurd cc

  -- A value is nowhere but at a key.
  pub key-of_value :
      (n : Node K V)
      → (n.key ≡ none → n.val ≡ none)
      → is_some n.val ≡ true
      → (l : K) × (n.key ≡ some l)
  key-of_value n empty h = go n.key refl
    where
      go : (o : Option K) → n.key ≡ o → (l : K) × (n.key ≡ some l)
      go none e = let bare : is_some n.val ≡ false = ap is_some (empty e) in absurd cc
      go (some l) e = (l, e)

  pub newkey-Added :
      (t : HashPart K V) (k : K)
      → Sound keys t
      → find keys t k ≡ none
      → AddedIf t k (newkey keys t k)
  unfolding newkey
  newkey-Added t k sound gone =
      let mp = keys.main_position t.size k in
      let inside = keys.position-lt t.size k sound.room in
      if_cases (AddedIf t k) (is_some (t.node mp).val || t.is_dummy)
        (λ taken. go taken (getfreepos t.node t.lastfree) (getfreepos-IsFree t.node t.lastfree))
        (λ bare.
          added t k _ mp t.lastfree sound
            (set_key_lem keys t.size t.node sound.chained mp k refl
              (is_none _ (or_parts _ t.is_dummy bare).0) inside (absent t k sound gone))
            inside (omega arith))
    where
      go :
          (is_some (t.node (keys.main_position t.size k)).val || t.is_dummy) ≡ true
          → (o : Option ℕ) → IsFree t.node t.lastfree o
          → AddedIf t k (elim o [
            | none ↦ none
            | some n ↦ some (collide keys t k (keys.main_position t.size k) n)
          ])
      go taken none h = tt
      go taken (some n) (less, free) = elim (Bool-cases t.is_dummy) [
        | inl dummy ↦ let full = sound.dummy_full dummy in absurd (omega arith)
        | inr own_nodes ↦
            let mp = keys.main_position t.size k in
            let (l, mp_key) =
              key-of_value (t.node mp) (sound.chained.empty mp)
                (or_left _ t.is_dummy taken own_nodes) in
            collide-Added t k l mp n sound gone refl mp_key less free
      ]
