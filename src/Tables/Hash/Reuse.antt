-- ===== src/Tables/Hash/Reuse.antt =====
-- `newkey` (src/ltable.c) when the main position has no value: the key is written there.
use mathlib.Core.Path.{subst}
use lunacy.Base.{
  ℕ, ◌<◌, ◌≡◌, ◌≢◌, refl, sym, ap, ◌∙◌, inl, inr, true, false, none, some, ==-cases, arith,
}
use lunacy.Tables.{is_some}
use lunacy.Tables.Hash.{Keys, Nodes, has_key, set_key}
use lunacy.Tables.Hash.Chains.{Reach, stop, onward, Chained}
use lunacy.Tables.Hash.Added.{Owned, reached-added, owner-added, distinct-added}
use lunacy.Tables.Hash.Values.{update_cases, update-here, update-there, Keeps, NewNodes}

module _ {K V : Type 0} (keys : Keys K) (size : ℕ) (node : Nodes K V) (c : Chained keys size node)
    (mp : ℕ) (k : K) (at_main : mp ≡ keys.main_position size k) (no_value : (node mp).val ≡ none)
    (inside : mp < size) (absent : (i : ℕ) → i < size → has_key keys (node i) k ≡ false) where
  abbrev after : Nodes K V
  after = set_key node mp k

  key-here : (after mp).key ≡ some k
  key-here = ap (λ n. n.key) (update-here node mp _)

  key-there : (i : ℕ) → i ≢ mp → (after i).key ≡ (node i).key
  key-there i h = ap (λ n. n.key) (update-there node mp _ i h)

  next-after : (i : ℕ) → (after i).next ≡ (node i).next
  next-after i =
      update_cases (λ n. n.next ≡ (node i).next) node mp (record (node mp) { key = some k }) i
        (λ e. ap (λ j. (node j).next) (sym e)) (λ ne. refl)

  keyed-after : (i : ℕ) → is_some (node i).key ≡ true → is_some (after i).key ≡ true
  keyed-after i h =
      update_cases (λ n. is_some n.key ≡ true) node mp (record (node mp) { key = some k }) i
        (λ e. refl) (λ ne. h)

  Reach-after : (m i : ℕ) → Reach node m i → Reach after m i
  Reach-after _ _ (stop i) = stop i
  Reach-after _ _ (onward m j i eq r) = onward m j i (next-after m ∙ eq) (Reach-after j i r)

  empty-after : (i : ℕ) → (after i).key ≡ none → (after i).val ≡ none
  empty-after i =
      update_cases (λ n. n.key ≡ none → n.val ≡ none) node mp (record (node mp) { key = some k }) i
        (λ here e. absurd cc) (λ there. c.empty i)

  set_key-Chained : Chained keys size after
  set_key-Chained =
      let room : 0 < size = omega arith in
      let from_lt : (i : ℕ) → i < size → i ≢ mp → i < size = λ i less ne. less in
      let from_key : (i : ℕ) → i < size → i ≢ mp → (after i).key ≡ (node i).key =
        λ i less ne. key-there i ne in
      let from_one : (i j : ℕ) → i < size → j < size → i ≢ mp → j ≢ mp → i ≡ j → i ≡ j =
        λ i j less less' ne ne' e. e in
      record {
        height = c.height;
        lower = λ i j e. c.lower i j (sym (next-after i) ∙ e);
        target = λ i j e. let t = c.target i j (sym (next-after i) ∙ e) in (t.0, keyed-after j t.1);
        source = λ i j e. keyed-after i (c.source i j (sym (next-after i) ∙ e));
        one_before =
            λ i i' j e e'. c.one_before i i' j (sym (next-after i) ∙ e) (sym (next-after i') ∙ e');
        reached =
            reached-added keys size node after c k absent mp key-here (λ i. i) from_lt from_key
              from_one (subst (λ j. Reach after j mp) at_main (stop mp))
              (λ i l less ne e. Reach-after _ i (c.reached i l less (sym (key-there i ne) ∙ e)));
        owner =
            owner-added keys size node after c k absent mp key-here (λ i. i) from_lt from_key
              from_one (subst (Owned keys size after) at_main (k, key-here, sym at_main))
              (λ q less own. elim (==-cases q mp) [
                | inl here ↦ subst (Owned keys size after) (sym here) (k, key-here, sym at_main)
                | inr there ↦ (own.0, key-there q there ∙ own.1, own.2)
              ])
              room;
        distinct =
            distinct-added keys size node after c k absent mp key-here (λ i. i) from_lt from_key
              from_one;
        empty = empty-after;
      }

  -- No value goes away, and none is new.
  set_key-Keeps : Keeps size node after
  set_key-Keeps i v less e = elim (==-cases i mp) [
    | inl here ↦
        let gone : (node mp).val ≡ some v = ap (λ j. (node j).val) (sym here) ∙ e in absurd cc
    | inr there ↦ (i, less, key-there i there, ap (λ n. n.val) (update-there node mp _ i there) ∙ e)
  ]

  Keeps-set_key : Keeps size after node
  Keeps-set_key i v less e = elim (==-cases i mp) [
    | inl here ↦
        let gone : (node mp).val ≡ some v =
          sym (ap (λ n. n.val) (update-here node mp (record (node mp) { key = some k })))
          ∙ (ap (λ j. (after j).val) (sym here) ∙ e) in
        absurd cc
    | inr there ↦ (
      i,
      less,
      sym (key-there i there),
      sym (ap (λ n. n.val) (update-there node mp _ i there)) ∙ e,
    )
  ]

  pub set_key_lem : NewNodes keys size node after k mp
  set_key_lem = (set_key-Chained, set_key-Keeps, Keeps-set_key, key-here)
