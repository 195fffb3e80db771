-- ===== src/Tables/Hash/Search.antt =====
-- The searches along the chains of the hash part (src/ltable.c): what they find.
use mathlib.Core.Path.{subst}
use lunacy.Base.{
  ℕ, zero, suc, ◌<◌, ◌≡◌, ◌≢◌, refl, ap, ◌∙◌, true, Option, none, some, if_cases, ◌==◌, arith,
}
use lunacy.Tables.Hash.{Keys, Node, Nodes, key_is, has_key, search, previous}
use lunacy.Tables.Hash.Measure.{below, below-lt, below-size}
use lunacy.Tables.Hash.Chains.{Reach, stop, onward, Chained}

pub has_key-key :
    {K V : Type 0} (keys : Keys K) (n : Node K V) (k : K)
    → has_key keys n k ≡ true
    → (l : K) × (n.key ≡ some l) × (keys.raw_equal l k ≡ true)
has_key-key {K} keys n k h = go n.key h
  where
    go :
        (o : Option K)
        → key_is keys o k ≡ true
        → (l : K) × (o ≡ some l) × (keys.raw_equal l k ≡ true)
    go none h = absurd cc
    go (some l) h = (l, refl, h)

module _ {K V : Type 0} (keys : Keys K) (size : ℕ) (node : Nodes K V) where
  -- A node of the array that has the key, if there is one.
  abbrev pub Found : K → Option ℕ → Type 0
  Found k none = Unit
  Found k (some i) = (i < size) × (has_key keys (node i) k ≡ true)

  module _ (c : Chained keys size node) where
    pub search-Found : (rounds m : ℕ) (k : K) → m < size → Found k (search keys rounds node m k)
    unfolding search
    search-Found zero m k inside = tt
    search-Found (suc rounds) m k inside =
        if_cases (Found k) (has_key keys (node m) k) (λ at. (inside, at))
          (λ past. go (node m).next refl (λ j less. search-Found rounds j k less))
      where
        go :
            (o : Option ℕ)
            → (node m).next ≡ o
            → ((j : ℕ) → j < size → Found k (search keys rounds node j k))
            → Found k (elim o [ none ↦ none | some j ↦ search keys rounds node j k ])
        go none eq further = tt
        go (some j) eq further = further j (c.target m j eq).0

    -- The measure of a chain from a node.
    abbrev depth : ℕ → ℕ
    depth m = below c.height size (c.height m)

    deeper : (m j : ℕ) → (node m).next ≡ some j → depth j < depth m
    deeper m j eq = below-lt c.height size j (c.height m) (c.target m j eq).0 (c.lower m j eq)

    -- A node that the chain comes to, and that alone has the key, is found.
    search-Reach :
        (rounds m i : ℕ) (k : K)
        → Reach node m i
        → m < size
        → depth m < rounds
        → has_key keys (node i) k ≡ true
        → ((j : ℕ) → j < size → has_key keys (node j) k ≡ true → j ≡ i)
        → search keys rounds node m k ≡ some i
    unfolding search
    search-Reach zero m i k r inside enough at only = absurd (omega arith)
    search-Reach (suc rounds) _ _ k (stop i) inside enough at only =
        if_cases (λ o. o ≡ some i) (has_key keys (node i) k) (λ yes'. refl) (λ not_here. absurd cc)
    search-Reach (suc rounds) _ _ k (onward m j i eq r) inside enough at only =
        if_cases (λ o. o ≡ some i) (has_key keys (node m) k) (λ here. ap some (only m inside here))
          (λ past.
            let less = deeper m j eq in
            rw eq (search-Reach rounds j i k r (c.target m j eq).0 (omega arith) at only))

    -- The node before `i` in the chain from `m`, if there is one.
    pub previous-next :
        (rounds m i : ℕ)
        → Reach node m i
        → m ≢ i
        → depth m < rounds
        → (node (previous rounds node m i)).next ≡ some i
    unfolding previous
    previous-next zero m i r other enough = absurd (omega arith)
    previous-next (suc rounds) _ _ (stop i) other enough = absurd (other refl)
    previous-next (suc rounds) _ _ (onward m j i eq r) other enough =
        rw (eq, previous)
          (if_cases (λ p. (node p).next ≡ some i) (j == i)
            (λ here. let at : j ≡ i = ground arith in eq ∙ ap some at)
            (λ past.
              let less = deeper m j eq in
              previous-next rounds j i r (λ at. absurd (ground arith)) (omega arith)))

    module _ (room : 0 < size) where
      pub shallow : (m : ℕ) → m < size → depth m < size
      shallow m inside =
          let one_more = below-lt c.height size m (suc (c.height m)) inside (omega arith) in
          let all = below-size c.height size (suc (c.height m)) in omega arith

      -- The one node that has a key.
      pub only-node :
          (i j : ℕ) (k : K)
          → i < size
          → j < size
          → has_key keys (node i) k ≡ true
          → has_key keys (node j) k ≡ true
          → j ≡ i
      only-node i j k less less' at at' =
          let here = has_key-key keys (node i) k at in
          let there = has_key-key keys (node j) k at' in
          c.distinct j i there.0 here.0 less' less there.1 here.1
            (keys.raw_equal_trans there.0 k here.0 there.2 (keys.raw_equal_sym here.0 k here.2))

      pub search-only :
          (i : ℕ) (k : K)
          → i < size
          → has_key keys (node i) k ≡ true
          → search keys size node (keys.main_position size k) k ≡ some i
      search-only i k inside at =
          let here = has_key-key keys (node i) k at in
          let from =
            subst (λ m. Reach node m i) (keys.same_position size here.0 k here.2)
              (c.reached i here.0 inside here.1) in
          let start = keys.position-lt size k room in
          search-Reach size (keys.main_position size k) i k from start
            (shallow (keys.main_position size k) start) at
            (λ j less at'. only-node i j k inside less at at')
