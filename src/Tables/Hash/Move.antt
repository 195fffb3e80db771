-- ===== src/Tables/Hash/Move.antt =====
-- `newkey` (src/ltable.c) when the node at the main position is in the chain of another: that node moves
-- to the free place, and the new key takes its main position.
use mathlib.Core.Path.{subst}
use lunacy.Base.{
  ℕ, ◌<◌, ◌≡◌, ◌≢◌, refl, sym, ap, ◌∙◌, ◌⊎◌, inl, inr, true, false, none, some, ==-cases, if_cases,
  ◌==◌, if◌then◌else◌, arith,
}
use lunacy.Tables.{is_some}
use lunacy.Tables.Hash.{Keys, Nodes, has_key, set_key, move_node}
use lunacy.Tables.Hash.Chains.{Reach, stop, onward, Chained}
use lunacy.Tables.Hash.Added.{
  Owned, same_some, free_unlinked, reached-added, owner-added, distinct-added,
}
use lunacy.Tables.Hash.Values.{update-here, Keeps, NewNodes}

module _ {K V : Type 0} (keys : Keys K) (size : ℕ) (node : Nodes K V) (c : Chained keys size node)
    (k : K) (absent : (i : ℕ) → i < size → has_key keys (node i) k ≡ false) (mp n prev : ℕ)
    (at_main : mp ≡ keys.main_position size k) (mp_inside : mp < size) (n_inside : n < size) (l : K)
    (mp_key : (node mp).key ≡ some l) (astray : keys.main_position size l ≢ mp)
    (free : (node n).key ≡ none) (before : (node prev).next ≡ some mp) where
  abbrev pub moved : Nodes K V
  moved = set_key (move_node node prev mp n) mp k

  unlinked : (i j : ℕ) → (node i).next ≡ some j → (i ≢ n) × (j ≢ n)
  unlinked i j e = free_unlinked keys size node c n free i j e

  mp-n : mp ≢ n
  mp-n = (unlinked prev mp before).1

  prev-n : prev ≢ n
  prev-n = (unlinked prev mp before).0

  prev-mp : prev ≢ mp
  prev-mp here =
      let less = c.lower prev mp before in
      let same : c.height prev ≡ c.height mp = ap c.height here in absurd (omega arith)

  key-mp : (moved mp).key ≡ some k
  unfolding move_node
  key-mp = ap (λ x. x.key) (update-here (move_node node prev mp n) mp _)

  val-mp : (moved mp).val ≡ none
  unfolding move_node
  val-mp = ground arith

  next-mp : (moved mp).next ≡ none
  unfolding move_node
  next-mp = ground arith

  key-n : (moved n).key ≡ (node mp).key
  unfolding move_node
  key-n = let a = mp-n in let b = prev-n in let d = prev-mp in ground (arith, a, b, d)

  val-n : (moved n).val ≡ (node mp).val
  unfolding move_node
  val-n = let a = mp-n in let b = prev-n in let d = prev-mp in ground (arith, a, b, d)

  next-n : (moved n).next ≡ (node mp).next
  unfolding move_node
  next-n = let a = mp-n in let b = prev-n in let d = prev-mp in ground (arith, a, b, d)

  next-prev : (moved prev).next ≡ some n
  unfolding move_node
  next-prev = let b = prev-n in let d = prev-mp in ground (arith, b, d)

  key-other : (i : ℕ) → i ≢ mp → i ≢ n → (moved i).key ≡ (node i).key
  unfolding move_node
  key-other i h h' = ground arith

  val-other : (i : ℕ) → i ≢ mp → i ≢ n → (moved i).val ≡ (node i).val
  unfolding move_node
  val-other i h h' = ground arith

  next-other : (i : ℕ) → i ≢ mp → i ≢ n → i ≢ prev → (moved i).next ≡ (node i).next
  unfolding move_node
  next-other i h h' h'' = ground arith

  -- A link of the old array, with the two ends moved.
  kept_end : (i j : ℕ) → (node i).next ≡ some j → i ≢ prev → j ≢ mp
  kept_end i j e off here = off (c.one_before i prev j e (before ∙ ap some (sym here)))

  mp-end : (j : ℕ) → (node mp).next ≡ some j → j ≢ mp
  mp-end j e here =
      let less = c.lower mp j e in
      let same : c.height j ≡ c.height mp = ap c.height here in absurd (omega arith)

  abbrev Link : ℕ → ℕ → Type 0
  Link i j =
      ((i ≡ prev) × (j ≡ n))
      ⊎ (((i ≡ n) × ((node mp).next ≡ some j)) ⊎ ((i ≢ prev) × (i ≢ mp) × ((node i).next ≡ some j)))

  link : (i j : ℕ) → (moved i).next ≡ some j → Link i j
  link i j e = elim (==-cases i prev) [
    | inl at_prev ↦ inl (at_prev, same_some (sym (ap (λ x. (moved x).next) at_prev) ∙ e) next-prev)
    | inr off_prev ↦ elim (==-cases i n) [
      | inl at_n ↦ inr (inl (at_n, sym next-n ∙ (ap (λ x. (moved x).next) (sym at_n) ∙ e)))
      | inr off_n ↦ elim (==-cases i mp) [
        | inl at_mp ↦
            let bad : some j ≡ none = sym e ∙ (ap (λ x. (moved x).next) at_mp ∙ next-mp) in
            absurd cc
        | inr off_mp ↦ inr (inr (off_prev, off_mp, sym (next-other i off_mp off_n off_prev) ∙ e))
      ]
    ]
  ]

  height' : ℕ → ℕ
  height' i = if i == n then c.height mp else c.height i

  lower' : (i j : ℕ) → (moved i).next ≡ some j → height' j < height' i
  unfolding height'
  lower' i j e = elim (link i j e) [
    | inl (at_prev, to_n) ↦
        let less = c.lower prev mp before in let off = prev-n in ground (arith, less, off)
    | inr (inl (at_n, e')) ↦
        let less = c.lower mp j e' in let off = (unlinked mp j e').1 in ground (arith, less, off)
    | inr (inr (off_prev, off_mp, e')) ↦
        let less = c.lower i j e' in let off = unlinked i j e' in ground (arith, less, off)
  ]

  keyed' : (i : ℕ) → is_some (node i).key ≡ true → is_some (moved i).key ≡ true
  keyed' i h = elim (==-cases i mp) [
    | inl at_mp ↦ ap (λ x. is_some (moved x).key) at_mp ∙ ap is_some key-mp
    | inr off_mp ↦ elim (==-cases i n) [
      | inl at_n ↦ ap (λ x. is_some (moved x).key) at_n ∙ (ap is_some key-n ∙ ap is_some mp_key)
      | inr off_n ↦ ap is_some (key-other i off_mp off_n) ∙ h
    ]
  ]

  keyed-n : (i : ℕ) → i ≡ n → is_some (moved i).key ≡ true
  keyed-n i here = ap (λ x. is_some (moved x).key) here ∙ (ap is_some key-n ∙ ap is_some mp_key)

  target' : (i j : ℕ) → (moved i).next ≡ some j → (j < size) × (is_some (moved j).key ≡ true)
  target' i j e = elim (link i j e) [
    | inl (at_prev, to_n) ↦ (subst (λ x. x < size) (sym to_n) n_inside, keyed-n j to_n)
    | inr (inl (at_n, e')) ↦ let t = c.target mp j e' in (t.0, keyed' j t.1)
    | inr (inr (off_prev, off_mp, e')) ↦ let t = c.target i j e' in (t.0, keyed' j t.1)
  ]

  source' : (i j : ℕ) → (moved i).next ≡ some j → is_some (moved i).key ≡ true
  source' i j e = elim (link i j e) [
    | inl (at_prev, to_n) ↦
        keyed' i (ap (λ x. is_some (node x).key) at_prev ∙ c.source prev mp before)
    | inr (inl (at_n, e')) ↦ keyed-n i at_n
    | inr (inr (off_prev, off_mp, e')) ↦ keyed' i (c.source i j e')
  ]

  one_arrow : (i i' j : ℕ) → Link i j → Link i' j → i ≡ i'
  one_arrow i i' j (inl (a, to_n)) (inl (b, to_n')) = a ∙ sym b
  one_arrow i i' j (inl (a, to_n)) (inr (inl (b, e'))) = absurd ((unlinked mp j e').1 to_n)
  one_arrow i i' j (inl (a, to_n)) (inr (inr (b, b', e'))) = absurd ((unlinked i' j e').1 to_n)
  one_arrow i i' j (inr (inl (a, e))) (inl (b, to_n)) = absurd ((unlinked mp j e).1 to_n)
  one_arrow i i' j (inr (inl (a, e))) (inr (inl (b, e'))) = a ∙ sym b
  one_arrow i i' j (inr (inl (a, e))) (inr (inr (b, b', e'))) =
      absurd (b' (c.one_before i' mp j e' e))
  one_arrow i i' j (inr (inr (a, a', e))) (inl (b, to_n)) = absurd ((unlinked i j e).1 to_n)
  one_arrow i i' j (inr (inr (a, a', e))) (inr (inl (b, e'))) =
      absurd (a' (c.one_before i mp j e e'))
  one_arrow i i' j (inr (inr (a, a', e))) (inr (inr (b, b', e'))) = c.one_before i i' j e e'

  -- Where a node of the old array is.
  rename : ℕ → ℕ
  rename x = if x == mp then n else x

  rename-mp : (x : ℕ) → x ≡ mp → rename x ≡ n
  unfolding rename
  rename-mp x h = ground arith

  rename-other : (x : ℕ) → x ≢ mp → rename x ≡ x
  unfolding rename
  rename-other x h = ground arith

  next-rename : (m j : ℕ) → (node m).next ≡ some j → (moved (rename m)).next ≡ some (rename j)
  next-rename m j e = elim (==-cases m mp) [
    | inl at_mp ↦
        let e' : (node mp).next ≡ some j = ap (λ x. (node x).next) (sym at_mp) ∙ e in
        ap (λ x. (moved x).next) (rename-mp m at_mp)
        ∙ (next-n ∙ (e' ∙ ap some (sym (rename-other j (mp-end j e')))))
    | inr off_mp ↦ ap (λ x. (moved x).next) (rename-other m off_mp) ∙ elim (==-cases m prev) [
      | inl at_prev ↦
          let to_mp : j ≡ mp = same_some (ap (λ x. (node x).next) (sym at_prev) ∙ e) before in
          ap (λ x. (moved x).next) at_prev ∙ (next-prev ∙ ap some (sym (rename-mp j to_mp)))
      | inr off_prev ↦
          next-other m off_mp (unlinked m j e).0 off_prev
          ∙ (e ∙ ap some (sym (rename-other j (kept_end m j e off_prev))))
    ]
  ]

  Reach-rename : (m i : ℕ) → Reach node m i → Reach moved (rename m) (rename i)
  Reach-rename _ _ (stop i) = stop (rename i)
  Reach-rename _ _ (onward m j i e r) =
      onward (rename m) (rename j) (rename i) (next-rename m j e) (Reach-rename j i r)

  -- No key but those at `mp` has that main position.
  main_off : (q : ℕ) → Owned keys size node q → q ≢ mp
  main_off q own here =
      let same : own.0 ≡ l = same_some (ap (λ x. (node x).key) (sym here) ∙ own.1) mp_key in
      astray (ap (keys.main_position size) (sym same) ∙ (own.2 ∙ here))

  from : ℕ → ℕ
  from i = if i == n then mp else i

  from-lt : (i : ℕ) → i < size → i ≢ mp → from i < size
  unfolding from
  from-lt i less off = ground arith

  from_key : (i : ℕ) → i < size → i ≢ mp → (moved i).key ≡ (node (from i)).key
  unfolding from
  from_key i less off =
      if_cases (λ x. (moved i).key ≡ (node x).key) (i == n)
        (λ h. let at_n : i ≡ n = ground arith in ap (λ x. (moved x).key) at_n ∙ key-n)
        (λ h. key-other i off (λ at_n. absurd (ground arith)))

  from_one : (i j : ℕ) → i < size → j < size → i ≢ mp → j ≢ mp → from i ≡ from j → i ≡ j
  unfolding from
  from_one i j less less' off off' e = ground arith

  owned' : (q : ℕ) → Owned keys size node q → Owned keys size moved q
  owned' q own =
      let off : q ≢ n = λ here.
        let bad : some own.0 ≡ none = sym own.1 ∙ (ap (λ x. (node x).key) here ∙ free) in
        absurd cc in
      (own.0, key-other q (main_off q own) off ∙ own.1, own.2)

  reached' :
      (i : ℕ) (m : K)
      → i < size
      → i ≢ mp
      → (moved i).key ≡ some m
      → Reach moved (keys.main_position size m) i
  reached' i m less off e = elim (==-cases i n) [
    | inl at_n ↦
        let e' : (node mp).key ≡ some m = sym key-n ∙ (ap (λ x. (moved x).key) (sym at_n) ∙ e) in
        let start =
          rename-other (keys.main_position size m) (main_off _ (c.owner mp m mp_inside e')) in
        subst (λ x. Reach moved x i) start
          (subst (Reach moved (rename (keys.main_position size m))) (rename-mp mp refl ∙ sym at_n)
            (Reach-rename _ mp (c.reached mp m mp_inside e')))
    | inr off_n ↦
        let e' : (node i).key ≡ some m = sym (key-other i off off_n) ∙ e in
        let start = rename-other (keys.main_position size m) (main_off _ (c.owner i m less e')) in
        subst (λ x. Reach moved x i) start
          (subst (Reach moved (rename (keys.main_position size m))) (rename-other i off)
            (Reach-rename _ i (c.reached i m less e')))
  ]

  empty' : (i : ℕ) → (moved i).key ≡ none → (moved i).val ≡ none
  empty' i e = elim (==-cases i mp) [
    | inl at_mp ↦ ap (λ x. (moved x).val) at_mp ∙ val-mp
    | inr off_mp ↦ elim (==-cases i n) [
      | inl at_n ↦
          let bad : some l ≡ none =
            sym mp_key ∙ (sym key-n ∙ (ap (λ x. (moved x).key) (sym at_n) ∙ e)) in
          absurd cc
      | inr off_n ↦ val-other i off_mp off_n ∙ c.empty i (sym (key-other i off_mp off_n) ∙ e)
    ]
  ]

  moved-Chained : Chained keys size moved
  moved-Chained =
      let room : 0 < size = omega arith in
      record {
        height = height';
        lower = lower';
        target = target';
        source = source';
        one_before = λ i i' j e e'. one_arrow i i' j (link i j e) (link i' j e');
        reached =
            reached-added keys size node moved c k absent mp key-mp from from-lt from_key from_one
              (subst (λ m. Reach moved m mp) at_main (stop mp)) reached';
        owner =
            owner-added keys size node moved c k absent mp key-mp from from-lt from_key from_one
              (subst (Owned keys size moved) at_main (k, key-mp, sym at_main))
              (λ q less own. owned' q own) room;
        distinct =
            distinct-added keys size node moved c k absent mp key-mp from from-lt from_key from_one;
        empty = empty';
      }

  moved-Keeps : Keeps size node moved
  moved-Keeps i v less e = elim (==-cases i mp) [
    | inl at_mp ↦ (
      n,
      n_inside,
      key-n ∙ ap (λ x. (node x).key) (sym at_mp),
      val-n ∙ (ap (λ x. (node x).val) (sym at_mp) ∙ e),
    )
    | inr off_mp ↦
        let off_n : i ≢ n = λ here.
          let bad : some v ≡ none = sym e ∙ (ap (λ x. (node x).val) here ∙ c.empty n free) in
          absurd cc in
        (i, less, key-other i off_mp off_n, val-other i off_mp off_n ∙ e)
  ]

  Keeps-moved : Keeps size moved node
  Keeps-moved i v less e = elim (==-cases i mp) [
    | inl at_mp ↦
        let bad : some v ≡ none = sym e ∙ (ap (λ x. (moved x).val) at_mp ∙ val-mp) in absurd cc
    | inr off_mp ↦ elim (==-cases i n) [
      | inl at_n ↦ (
        mp,
        mp_inside,
        sym key-n ∙ ap (λ x. (moved x).key) (sym at_n),
        sym val-n ∙ (ap (λ x. (moved x).val) (sym at_n) ∙ e),
      )
      | inr off_n ↦ (i, less, sym (key-other i off_mp off_n), sym (val-other i off_mp off_n) ∙ e)
    ]
  ]

  pub move_node_lem : NewNodes keys size node moved k mp
  move_node_lem = (moved-Chained, moved-Keeps, Keeps-moved, key-mp)
