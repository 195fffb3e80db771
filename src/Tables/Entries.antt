-- ===== src/Tables/Entries.antt =====
-- The entries that `resize` inserts again (src/ltable.c), as changes to what a table gives for a key.
use mathlib.Core.Path.{subst}
use lunacy.Base.{
  ℕ, zero, suc, ◌+◌, ◌-◌, ◌^◌, ◌≤◌, ◌<◌, ◌≡◌, ◌≢◌, refl, sym, ap, ◌∙◌, inl, inr, Bool, true, false,
  List, [], ◌∷◌, ◌++◌, Option, none, some, ==-cases, Bool-cases, if◌then◌else◌, length, arith,
}
use lunacy.Tables.{element}
use lunacy.Tables.Hash.{Keys, Node, Nodes, HashPart, key_is, has_key, search, find, val_at}
use lunacy.Tables.Hash
use lunacy.Tables.Hash.Search.{Found, search-only, search-Found}
use lunacy.Tables.Hash.Newkey.{Sound, absent}
use lunacy.Tables.Hash.Added.{same_some}
use lunacy.Tables.Access.{Indices, slice_entries, entry, node_entries}
use lunacy.Tables.Elements.{
  or_else, element-at_first, element-no_rest, element-in_rest, raw_equal_swap,
}

module _ {K V : Type 0} (keys : Keys K) where
  -- What a table gives after assignments, if it gave `g` before them.
  unfoldable pub over : List (K × V) → (K → Option V) → K → Option V
  over [] g l = g l
  over ((k, v) ∷ es) g l = over es (λ m. if keys.raw_equal m k then some v else g m) l

  pub over_ext :
      (es : List (K × V)) (g h : K → Option V) (l : K)
      → ((m : K) → g m ≡ h m)
      → over es g l ≡ over es h l
  unfolding over
  over_ext [] g h l same = same l
  over_ext ((k, v) ∷ es) g h l same =
      over_ext es _ _ l (λ m. ap (λ o. if keys.raw_equal m k then some v else o) (same m))

  pub over-append :
      (es es' : List (K × V)) (g : K → Option V) (l : K)
      → over (es ++ es') g l ≡ over es' (λ m. over es g m) l
  unfolding over
  over-append [] es' g l = refl
  over-append ((k, v) ∷ es) es' g l = over-append es es' _ l

  module _ (indices : Indices keys) where
    -- The entries of a slice change the keys that it has a value for.
    pub over-slice_entries :
        (i : ℕ) (xs : List (Option V)) (g : K → Option V) (l : K)
        → 0 < i
        → i + length xs ≤ 2 ^ 31
        → over (slice_entries indices.of_index i xs) g l
          ≡ or_else (element xs (suc (indices.arrayindex l) - i)) (g l)
    unfolding over slice_entries
    over-slice_entries i [] g l pos le = refl
    over-slice_entries i (x ∷ xs) g l pos le =
        let rest : (h : K → Option V)
            → over (slice_entries indices.of_index (suc i) xs) h l
              ≡ or_else (element xs (suc (indices.arrayindex l) - suc i)) (h l) =
          λ h. over-slice_entries (suc i) xs h l (omega arith) (omega arith) in
        elim (==-cases (indices.arrayindex l) i) [
          | inl here ↦ at x here rest
          | inr there ↦ off x there rest
        ]
      where
        Holds : Option V → Type 0
        Holds x =
            over (slice_entries indices.of_index i (x ∷ xs)) g l
            ≡ or_else (element (x ∷ xs) (suc (indices.arrayindex l) - i)) (g l)

        Rest : Type 0
        Rest =
            (h : K → Option V)
            → over (slice_entries indices.of_index (suc i) xs) h l
              ≡ or_else (element xs (suc (indices.arrayindex l) - suc i)) (h l)

        at : (x : Option V) → indices.arrayindex l ≡ i → Rest → Holds x
        at none here rest =
            let a = indices.arrayindex l in
            rest g
            ∙ ap (λ o. or_else o (g l))
                (element-no_rest xs i a here ∙ sym (element-at_first none xs i a here))
        at (some v) here rest =
            let a = indices.arrayindex l in
            let same : keys.raw_equal l (indices.of_index i) ≡ true =
              ap (λ j. keys.raw_equal l (indices.of_index j)) (sym here)
              ∙ indices.one_key l (omega arith) in
            rest _
            ∙ (ap (λ o. or_else o (if keys.raw_equal l (indices.of_index i) then some v else g l))
                  (element-no_rest xs i a here)
                ∙ (ap (λ (b : Bool). if b then some v else g l) same
                    ∙ sym (ap (λ o. or_else o (g l)) (element-at_first (some v) xs i a here))))

        off : (x : Option V) → indices.arrayindex l ≢ i → Rest → Holds x
        off none there rest =
            let a = indices.arrayindex l in
            rest g ∙ ap (λ o. or_else o (g l)) (element-in_rest none xs i a there)
        off (some v) there rest =
            let a = indices.arrayindex l in
            let differ : keys.raw_equal l (indices.of_index i) ≡ false =
              elim (Bool-cases (keys.raw_equal l (indices.of_index i))) [
                | inl e ↦ absurd (
                    there (
                      indices.same_index l (indices.of_index i) e
                      ∙ indices.arrayindex-of_index i (omega arith)))
                | inr e ↦ e
              ] in
            rest _
            ∙ (ap (λ o. or_else o (if keys.raw_equal l (indices.of_index i) then some v else g l))
                  (element-in_rest (some v) xs i a there)
                ∙ ap
                    (λ (b : Bool).
                      or_else (element (some v ∷ xs) (suc a - i)) (if b then some v else g l))
                    differ)

  module _ (node : Nodes K V) (l : K) where
    -- Without a node for the key, the entries of the nodes leave it alone.
    over-no_entry :
        (i : ℕ)
        → ((j : ℕ) → j < i → has_key keys (node j) l ≡ false)
        → (h : K → Option V) → over (node_entries node i) h l ≡ h l
    unfolding over node_entries
    over-no_entry zero gone h = refl
    over-no_entry (suc i) gone h =
        go (node i).key (node i).val (gone i (omega arith))
          (over-no_entry i (λ j less. gone j (omega arith)))
      where
        go :
            (k : Option K) (v : Option V)
            → key_is keys k l ≡ false
            → ((h : K → Option V) → over (node_entries node i) h l ≡ h l)
            → over (entry k v (node_entries node i)) h l ≡ h l
        go none v e rest = rest h
        go (some k) none e rest = rest h
        go (some k) (some v) e rest =
            rest _ ∙ ap (λ (b : Bool). if b then some v else h l) (raw_equal_swap keys l k ∙ e)

    -- The only node for a key changes it, if that has a value.
    over-one_entry :
        (i j : ℕ)
        → j < i
        → has_key keys (node j) l ≡ true
        → ((x : ℕ) → x < i → has_key keys (node x) l ≡ true → x ≡ j)
        → (g : K → Option V) → over (node_entries node i) g l ≡ or_else (node j).val (g l)
    unfolding over node_entries
    over-one_entry zero j less at only g = absurd (omega arith)
    over-one_entry (suc i) j less at only g = elim (==-cases i j) [
      | inl here ↦
          let below : (x : ℕ) → x < i → has_key keys (node x) l ≡ false = λ x lower.
            elim (Bool-cases (has_key keys (node x) l)) [
              | inl e ↦ absurd (let same = only x (omega arith) e in omega arith)
              | inr e ↦ e
            ] in
          first (node i).key (node i).val (ap (λ x. has_key keys (node x) l) here ∙ at)
            (over-no_entry i below)
          ∙ ap (λ x. or_else (node x).val (g l)) here
      | inr there ↦
          let other : has_key keys (node i) l ≡ false =
            elim (Bool-cases (has_key keys (node i) l)) [
              | inl e ↦ absurd (there (only i (omega arith) e))
              | inr e ↦ e
            ] in
          later (node i).key (node i).val other
            (over-one_entry i j (omega arith) at (λ x lower e. only x (omega arith) e))
    ]
      where
        first :
            (k : Option K) (v : Option V)
            → key_is keys k l ≡ true
            → ((h : K → Option V) → over (node_entries node i) h l ≡ h l)
            → over (entry k v (node_entries node i)) g l ≡ or_else v (g l)
        first none v e rest = absurd cc
        first (some k) none e rest = rest g
        first (some k) (some v) e rest =
            rest _ ∙ ap (λ (b : Bool). if b then some v else g l) (raw_equal_swap keys l k ∙ e)

        later :
            (k : Option K) (v : Option V)
            → key_is keys k l ≡ false
            → ((h : K → Option V) → over (node_entries node i) h l ≡ or_else (node j).val (h l))
            → over (entry k v (node_entries node i)) g l ≡ or_else (node j).val (g l)
        later none v e rest = rest g
        later (some k) none e rest = rest g
        later (some k) (some v) e rest =
            rest _
            ∙ ap (λ (b : Bool). or_else (node j).val (if b then some v else g l))
                (raw_equal_swap keys l k ∙ e)

  -- The entries of a sound hash part change the keys that it has a value for.
  pub over-node_entries :
      (t : HashPart K V) (g : K → Option V) (l : K)
      → Sound keys t
      → over (node_entries t.node t.size) g l ≡ or_else (Hash.get keys t l) (g l)
  unfolding Hash.get find
  over-node_entries t g l sound = go (find keys t l) refl (
      search-Found keys t.size t.node sound.chained t.size (keys.main_position t.size l) l
        (keys.position-lt t.size l sound.room))
    where
      go :
          (o : Option ℕ)
          → find keys t l ≡ o
          → Found keys t.size t.node l (find keys t l)
          → over (node_entries t.node t.size) g l ≡ or_else (val_at t.node o) (g l)
      go none e f = over-no_entry t.node l t.size (absent keys t l sound e) g
      go (some i) e f =
          let (less, at) = subst (Found keys t.size t.node l) e f in
          over-one_entry t.node l t.size i less at
            (λ x inside has.
              let x_found =
                search-only keys t.size t.node sound.chained sound.room x l inside has in
              let i_found = search-only keys t.size t.node sound.chained sound.room i l less at in
              same_some x_found i_found)
            g
