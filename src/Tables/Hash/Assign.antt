-- ===== src/Tables/Hash/Assign.antt =====
-- `luaH_set` and an assignment to the place that it gives (src/ltable.c), on the hash part.
use mathlib.Core.Path.{subst}
use lunacy.Base.{
  ℕ, zero, suc, ◌<◌, ◌≡◌, ◌≢◌, refl, sym, ap, ◌∙◌, true, false, Option, none, some, if◌then◌else◌,
  arith,
}
use lunacy.Tables.{is_some}
use lunacy.Tables.Hash.{
  Keys, Nodes, HashPart, key_is, has_key, search, find, get, val_at, set_val, newkey, place_for,
  put,
}
use lunacy.Tables.Hash.Chains.{Reach, stop, onward, Chained}
use lunacy.Tables.Hash.Search.{Found, search-only, search-Found, has_key-key}
use lunacy.Tables.Hash.Added.{same_some}
use lunacy.Tables.Hash.Values.{update_cases, update-here, update-there}
use lunacy.Tables.Hash.Newkey.{Sound, AddedIf, newkey-Added}

module _ {K V : Type 0} (keys : Keys K) where
  place_for-Added :
      (t : HashPart K V) (k : K) → Sound keys t → AddedIf keys t k (place_for keys t k)
  unfolding place_for find
  place_for-Added t k sound = go (find keys t k) refl (
      search-Found keys t.size t.node sound.chained t.size (keys.main_position t.size k) k
        (keys.position-lt t.size k sound.room))
    where
      go :
          (o : Option ℕ)
          → find keys t k ≡ o
          → Found keys t.size t.node k (find keys t k)
          → AddedIf keys t k (elim o [ none ↦ newkey keys t k | some i ↦ some (t, i) ])
      go none e f = newkey-Added keys t k sound e
      go (some i) e f =
          let (less, at) = subst (Found keys t.size t.node k) e f in (sound, less, at, λ l. refl)

  module _ (t : HashPart K V) (k : K) (v : Option V) (i : ℕ) (sound : Sound keys t)
      (less : i < t.size) (at : has_key keys (t.node i) k ≡ true) where
    abbrev assigned : Nodes K V
    assigned = set_val t.node i v

    same_key : (x : ℕ) → (assigned x).key ≡ (t.node x).key
    same_key x = ground arith

    same_next : (x : ℕ) → (assigned x).next ≡ (t.node x).next
    same_next x = ground arith

    Reach-assigned : (m j : ℕ) → Reach t.node m j → Reach assigned m j
    Reach-assigned _ _ (stop j) = stop j
    Reach-assigned _ _ (onward m x j e r) = onward m x j (same_next m ∙ e) (Reach-assigned x j r)

    empty-assigned : (x : ℕ) → (assigned x).key ≡ none → (assigned x).val ≡ none
    empty-assigned x =
        update_cases (λ n. n.key ≡ none → n.val ≡ none) t.node i (record (t.node i) { val = v }) x
          (λ here e. let bare : false ≡ true = ap (λ o. key_is keys o k) (sym e) ∙ at in absurd cc)
          (λ there. sound.chained.empty x)

    assigned-Chained : Chained keys t.size assigned
    assigned-Chained =
        let c = sound.chained in
        record {
          height = c.height;
          lower = λ x y e. c.lower x y (sym (same_next x) ∙ e);
          target = λ x y e.
              let g = c.target x y (sym (same_next x) ∙ e) in (g.0, ap is_some (same_key y) ∙ g.1);
          source = λ x y e. ap is_some (same_key x) ∙ c.source x y (sym (same_next x) ∙ e);
          one_before =
              λ x x' y e e'. c.one_before x x' y (sym (same_next x) ∙ e) (sym (same_next x') ∙ e');
          reached =
              λ x l inside e. Reach-assigned _ x (c.reached x l inside (sym (same_key x) ∙ e));
          owner = λ x l inside e.
              let (m, key, own) = c.owner x l inside (sym (same_key x) ∙ e) in
              (m, same_key (keys.main_position t.size l) ∙ key, own);
          distinct = λ x y l m inside inside' e e' h.
              c.distinct x y l m inside inside' (sym (same_key x) ∙ e) (sym (same_key y) ∙ e') h;
          empty = empty-assigned;
        }

    search-assigned :
        (rounds m : ℕ) (l : K) → search keys rounds assigned m l ≡ search keys rounds t.node m l
    unfolding search
    search-assigned zero m l = refl
    search-assigned (suc rounds) m l =
        let past : Option ℕ → Option ℕ =
          λ o. elim o [ none ↦ none | some j ↦ search keys rounds assigned j l ] in
        ap (λ o. if key_is keys o l then some m else past (assigned m).next) (same_key m)
        ∙ (ap (λ o. if has_key keys (t.node m) l then some m else past o) (same_next m)
            ∙ go (t.node m).next (λ j. search-assigned rounds j l))
      where
        go :
            (o : Option ℕ)
            → ((j : ℕ) → search keys rounds assigned j l ≡ search keys rounds t.node j l)
            → (if has_key keys (t.node m) l
                then some m
                else elim o [ none ↦ none | some j ↦ search keys rounds assigned j l ])
              ≡ (if has_key keys (t.node m) l
                  then some m
                  else elim o [ none ↦ none | some j ↦ search keys rounds t.node j l ])
        go none h = refl
        go (some j) h = ap (λ r. if has_key keys (t.node m) l then some m else r) (h j)

    get-assigned :
        (l : K) → keys.raw_equal l k ≡ true → get keys (record t { node = assigned }) l ≡ v
    unfolding get find
    get-assigned l same =
        let (m, key, m_k) = has_key-key keys (t.node i) k at in
        let m_l = keys.raw_equal_trans m k l m_k (keys.raw_equal_sym l k same) in
        ap (val_at assigned) (
          search-only keys t.size assigned assigned-Chained sound.room i l less
            (ap (λ o. key_is keys o l) (same_key i ∙ key) ∙ m_l))
        ∙ ap (λ n. n.val) (update-here t.node i (record (t.node i) { val = v }))

    get-other :
        (l : K)
        → keys.raw_equal l k ≡ false
        → get keys (record t { node = assigned }) l ≡ get keys t l
    unfolding get find
    get-other l off =
        ap (val_at assigned) (search-assigned t.size (keys.main_position t.size l) l)
        ∙ go (search keys t.size t.node (keys.main_position t.size l) l) (
            search-Found keys t.size t.node sound.chained t.size (keys.main_position t.size l) l
              (keys.position-lt t.size l sound.room))
      where
        go : (o : Option ℕ) → Found keys t.size t.node l o → val_at assigned o ≡ val_at t.node o
        go none f = refl
        go (some j) (inside, has) =
            let other : j ≢ i = λ e.
              let has_k = ap (λ x. has_key keys (t.node x) k) e ∙ at in
              let (m, key, same) = has_key-key keys (t.node j) l has in
              let m_k : keys.raw_equal m k ≡ true = sym (ap (λ o. key_is keys o k) key) ∙ has_k in
              let l_k = keys.raw_equal_trans l m k (keys.raw_equal_sym m l same) m_k in absurd cc in
            ap (λ n. n.val) (update-there t.node i (record (t.node i) { val = v }) j other)

    assigned-Sound : Sound keys (record t { node = assigned })
    assigned-Sound = record {
      chained = assigned-Chained;
      room = sound.room;
      free-le = sound.free-le;
      dummy_full = sound.dummy_full;
    }

  -- The table after an assignment gives the new value for the key, and for any other the old one.
  abbrev pub Assigned : HashPart K V → K → Option V → HashPart K V → Type 0
  Assigned t k v t' =
      Sound keys t'
      × ((l : K) → keys.raw_equal l k ≡ true → get keys t' l ≡ v)
      × ((l : K) → keys.raw_equal l k ≡ false → get keys t' l ≡ get keys t l)

  -- On a table whose chains are sound, an assignment that needs no new room keeps them sound, stores
  -- the value for the key and leaves that of every other key, wherever the nodes move to.
  pub put-Assigned :
      (t : HashPart K V) (k : K) (v : Option V) (t' : HashPart K V)
      → Sound keys t
      → put keys t k v ≡ some t'
      → Assigned t k v t'
  unfolding put
  put-Assigned t k v t' sound h = go (place_for keys t k) (place_for-Added t k sound) h
    where
      go :
          (o : Option (HashPart K V × ℕ))
          → AddedIf keys t k o
          → elim o [ none ↦ none | some (u, i) ↦ some (record u { node = set_val u.node i v }) ]
            ≡ some t'
          → Assigned t k v t'
      go none a e = absurd cc
      go (some (u, i)) (sound', less, at, same) e =
          let done : record u { node = set_val u.node i v } ≡ t' = same_some (sym e) refl in
          subst (Assigned t k v) done (
            assigned-Sound u k v i sound' less at,
            get-assigned u k v i sound' less at,
            λ l off. get-other u k v i sound' less at l off ∙ same l,
          )
