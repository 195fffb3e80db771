-- ===== src/Tables/Hash/Extend.antt =====
-- `newkey` (src/ltable.c) when the node at the main position is in its own: the new node comes
-- behind it in the chain.
use mathlib.Core.Path.{subst}
use lunacy.Base.{
  ℕ, ◌+◌, ◌*◌, ◌<◌, ◌≡◌, ◌≢◌, sym, ap, ◌∙◌, ◌⊎◌, inl, inr, true, false, none, some, ==-cases, ◌==◌,
  if◌then◌else◌, arith,
}
use lunacy.Tables.{is_some}
use lunacy.Tables.Hash.{Keys, Nodes, has_key, set_key, chain_node}
use lunacy.Tables.Hash.Chains.{Reach, stop, onward, Chained}
use lunacy.Tables.Hash.Added.{
  Owned, same_some, free_unlinked, reached-added, owner-added, distinct-added,
}
use lunacy.Tables.Hash.Values.{update-here, Keeps, NewNodes}

module _ {K V : Type 0} (keys : Keys K) (size : ℕ) (node : Nodes K V) (c : Chained keys size node)
    (k : K) (absent : (i : ℕ) → i < size → has_key keys (node i) k ≡ false) (mp n : ℕ)
    (at_main : mp ≡ keys.main_position size k) (mp_inside : mp < size) (n_inside : n < size) (l : K)
    (mp_key : (node mp).key ≡ some l) (own : keys.main_position size l ≡ mp)
    (free : (node n).key ≡ none) where
  abbrev pub extended : Nodes K V
  extended = set_key (chain_node node mp n) n k

  mp-n : mp ≢ n
  mp-n e = let bad : some l ≡ none = sym mp_key ∙ (ap (λ j. (node j).key) e ∙ free) in absurd cc

  key-n : (extended n).key ≡ some k
  unfolding chain_node
  key-n = ap (λ x. x.key) (update-here (chain_node node mp n) n _)

  key-other : (i : ℕ) → i ≢ n → (extended i).key ≡ (node i).key
  unfolding chain_node
  key-other i h = ground arith

  val-other : (i : ℕ) → i ≢ n → (extended i).val ≡ (node i).val
  unfolding chain_node
  val-other i h = ground arith

  val-n : (extended n).val ≡ none
  unfolding chain_node
  val-n = let no_value = c.empty n free in ground (arith, no_value)

  next-n : (extended n).next ≡ (node mp).next
  unfolding chain_node
  next-n = ground arith

  next-mp : (extended mp).next ≡ some n
  unfolding chain_node
  next-mp = ground arith

  next-other : (i : ℕ) → i ≢ n → i ≢ mp → (extended i).next ≡ (node i).next
  unfolding chain_node
  next-other i h h' = ground arith

  unlinked : (i j : ℕ) → (node i).next ≡ some j → (i ≢ n) × (j ≢ n)
  unlinked i j e = free_unlinked keys size node c n free i j e

  -- The links of the new array: out of the new node, to it, and the others.
  abbrev Link : ℕ → ℕ → Type 0
  Link i j =
      ((i ≡ n) × ((node mp).next ≡ some j))
      ⊎ (((i ≡ mp) × (j ≡ n)) ⊎ ((i ≢ mp) × (i ≢ n) × ((node i).next ≡ some j)))

  link : (i j : ℕ) → (extended i).next ≡ some j → Link i j
  link i j e = elim (==-cases i n) [
    | inl at_n ↦ inl (at_n, sym next-n ∙ (ap (λ x. (extended x).next) (sym at_n) ∙ e))
    | inr off_n ↦ elim (==-cases i mp) [
      | inl at_mp ↦
          inr (inl (at_mp, same_some (sym (ap (λ x. (extended x).next) at_mp) ∙ e) next-mp))
      | inr off_mp ↦ inr (inr (off_mp, off_n, sym (next-other i off_n off_mp) ∙ e))
    ]
  ]

  height' : ℕ → ℕ
  height' i = if i == n then 2 * c.height mp else 2 * c.height i + 1

  lower' : (i j : ℕ) → (extended i).next ≡ some j → height' j < height' i
  unfolding height'
  lower' i j e = elim (link i j e) [
    | inl (at_n, e') ↦
        let less = c.lower mp j e' in let off = (unlinked mp j e').1 in ground (arith, less, off)
    | inr (inl (at_mp, to_n)) ↦ let off = mp-n in ground (arith, off)
    | inr (inr (off_mp, off_n, e')) ↦
        let less = c.lower i j e' in let off = (unlinked i j e').1 in ground (arith, less, off)
  ]

  keyed' : (i : ℕ) → is_some (node i).key ≡ true → is_some (extended i).key ≡ true
  keyed' i h = elim (==-cases i n) [
    | inl at_n ↦ ap (λ x. is_some (extended x).key) at_n ∙ ap is_some key-n
    | inr off_n ↦ ap is_some (key-other i off_n) ∙ h
  ]

  target' : (i j : ℕ) → (extended i).next ≡ some j → (j < size) × (is_some (extended j).key ≡ true)
  target' i j e = elim (link i j e) [
    | inl (at_n, e') ↦ let t = c.target mp j e' in (t.0, keyed' j t.1)
    | inr (inl (at_mp, to_n)) ↦ (
      subst (λ x. x < size) (sym to_n) n_inside,
      ap (λ x. is_some (extended x).key) to_n ∙ ap is_some key-n,
    )
    | inr (inr (off_mp, off_n, e')) ↦ let t = c.target i j e' in (t.0, keyed' j t.1)
  ]

  source' : (i j : ℕ) → (extended i).next ≡ some j → is_some (extended i).key ≡ true
  source' i j e = elim (link i j e) [
    | inl (at_n, e') ↦ ap (λ x. is_some (extended x).key) at_n ∙ ap is_some key-n
    | inr (inl (at_mp, to_n)) ↦ keyed' i (ap (λ x. is_some (node x).key) at_mp ∙ ap is_some mp_key)
    | inr (inr (off_mp, off_n, e')) ↦ keyed' i (c.source i j e')
  ]

  one_arrow : (i i' j : ℕ) → Link i j → Link i' j → i ≡ i'
  one_arrow i i' j (inl (a, e)) (inl (b, e')) = a ∙ sym b
  one_arrow i i' j (inl (a, e)) (inr (inl (b, to_n))) = absurd ((unlinked mp j e).1 to_n)
  one_arrow i i' j (inl (a, e)) (inr (inr (b, b', e'))) = absurd (b (c.one_before i' mp j e' e))
  one_arrow i i' j (inr (inl (a, to_n))) (inl (b, e')) = absurd ((unlinked mp j e').1 to_n)
  one_arrow i i' j (inr (inl (a, to_n))) (inr (inl (b, to_n'))) = a ∙ sym b
  one_arrow i i' j (inr (inl (a, to_n))) (inr (inr (b, b', e'))) =
      absurd ((unlinked i' j e').1 to_n)
  one_arrow i i' j (inr (inr (a, a', e))) (inl (b, e')) = absurd (a (c.one_before i mp j e e'))
  one_arrow i i' j (inr (inr (a, a', e))) (inr (inl (b, to_n))) = absurd ((unlinked i j e).1 to_n)
  one_arrow i i' j (inr (inr (a, a', e))) (inr (inr (b, b', e'))) = c.one_before i i' j e e'

  Reach' : (m i : ℕ) → Reach node m i → Reach extended m i
  Reach' _ _ (stop i) = stop i
  Reach' _ _ (onward m j i eq r) = elim (==-cases m mp) [
    | inl at_mp ↦
        onward m n i (ap (λ x. (extended x).next) at_mp ∙ next-mp)
          (onward n j i (next-n ∙ (ap (λ x. (node x).next) (sym at_mp) ∙ eq)) (Reach' j i r))
    | inr off_mp ↦ onward m j i (next-other m (unlinked m j eq).0 off_mp ∙ eq) (Reach' j i r)
  ]

  owned' : (q : ℕ) → Owned keys size node q → Owned keys size extended q
  owned' q own_q =
      let off : q ≢ n = λ here.
        let bad : some own_q.0 ≡ none = sym own_q.1 ∙ (ap (λ x. (node x).key) here ∙ free) in
        absurd cc in
      (own_q.0, key-other q off ∙ own_q.1, own_q.2)

  empty' : (i : ℕ) → (extended i).key ≡ none → (extended i).val ≡ none
  empty' i e = elim (==-cases i n) [
    | inl at_n ↦ ap (λ x. (extended x).val) at_n ∙ val-n
    | inr off_n ↦ val-other i off_n ∙ c.empty i (sym (key-other i off_n) ∙ e)
  ]

  extended-Chained : Chained keys size extended
  extended-Chained =
      let room : 0 < size = omega arith in
      let from_lt : (i : ℕ) → i < size → i ≢ n → i < size = λ i less ne. less in
      let from_key : (i : ℕ) → i < size → i ≢ n → (extended i).key ≡ (node i).key =
        λ i less ne. key-other i ne in
      let from_one : (i j : ℕ) → i < size → j < size → i ≢ n → j ≢ n → i ≡ j → i ≡ j =
        λ i j less less' ne ne' e. e in
      record {
        height = height';
        lower = lower';
        target = target';
        source = source';
        one_before = λ i i' j e e'. one_arrow i i' j (link i j e) (link i' j e');
        reached =
            reached-added keys size node extended c k absent n key-n (λ i. i) from_lt from_key
              from_one (subst (λ m. Reach extended m n) at_main (onward mp n n next-mp (stop n)))
              (λ i m less ne e. Reach' _ i (c.reached i m less (sym (key-other i ne) ∙ e)));
        owner =
            owner-added keys size node extended c k absent n key-n (λ i. i) from_lt from_key
              from_one
              (subst (Owned keys size extended) at_main (l, key-other mp mp-n ∙ mp_key, own))
              (λ q less own_q. owned' q own_q) room;
        distinct =
            distinct-added keys size node extended c k absent n key-n (λ i. i) from_lt from_key
              from_one;
        empty = empty';
      }

  extended-Keeps : Keeps size node extended
  extended-Keeps i v less e =
      let off : i ≢ n = λ here.
        let bad : some v ≡ none = sym e ∙ (ap (λ x. (node x).val) here ∙ c.empty n free) in
        absurd cc in
      (i, less, key-other i off, val-other i off ∙ e)

  Keeps-extended : Keeps size extended node
  Keeps-extended i v less e =
      let off : i ≢ n = λ here.
        let bad : some v ≡ none = sym e ∙ (ap (λ x. (extended x).val) here ∙ val-n) in absurd cc in
      (i, less, sym (key-other i off), sym (val-other i off) ∙ e)

  pub chain_node_lem : NewNodes keys size node extended k n
  chain_node_lem = (extended-Chained, extended-Keeps, Keeps-extended, key-n)
