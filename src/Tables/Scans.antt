-- ===== src/Tables/Scans.antt =====
-- The two loops of `luaH_next` (src/ltable.c) as searches for the first entry.
use lunacy.Base.{
  ℕ, zero, suc, ◌+◌, ◌-◌, ◌≤◌, ◌<◌, ◌≡◌, refl, ap, ◌∙◌, List, [], ◌∷◌, Option, none, some, arith,
}
use lunacy.Tables.{element}
use lunacy.Tables.Hash.{Nodes}
use lunacy.Tables.Hash.Added.{same_some}
use lunacy.Tables.Next.{next_element, node_entry, next_node}

abbrev with_entry : {A : Type 0} → Option A → List A → List A
with_entry none es = es
with_entry (some e) es = e ∷ es

-- What a function gives at the indexes from `i` on, in order.
abbrev pub listed : {A : Type 0} → (ℕ → Option A) → (count i : ℕ) → List A
listed at zero i = []
listed at (suc count) i = with_entry (at i) (listed at count (suc i))

abbrev pub scan : {A : Type 0} → (ℕ → Option A) → (count i : ℕ) → Option A
scan at zero i = none
scan at (suc count) i = elim (at i) [ none ↦ scan at count (suc i) | some a ↦ some a ]

module _ {A : Type 0} (at : ℕ → Option A) where
  -- The first of them, with those after it.
  abbrev pub First : ℕ → ℕ → Option A → Type 0
  First count i none = listed at count i ≡ []
  First count i (some a) =
      (q : ℕ) × (i ≤ q)
      × (q < i + count)
      × (at q ≡ some a)
      × (listed at count i ≡ a ∷ listed at (i + count - suc q) (suc q))

  pub scan-First : (count i : ℕ) → First count i (scan at count i)
  scan-First zero i = refl
  scan-First (suc count) i = go (at i) refl (scan at count (suc i)) (scan-First count (suc i))
    where
      go :
          (v : Option A)
          → at i ≡ v
          → (o : Option A) → First count (suc i) o
          → First (suc count) i (elim v [ none ↦ o | some a ↦ some a ])
      go none e none h = ap (λ v. with_entry v (listed at count (suc i))) e ∙ h
      go none e (some a) (q, from, to, here, rest) =
          let same : suc i + count - suc q ≡ i + suc count - suc q = omega arith in
          (
            q,
            omega arith,
            omega arith,
            here,
            ap (λ v. with_entry v (listed at count (suc i))) e
                ∙ (rest ∙ ap (λ c. a ∷ listed at c (suc q)) same),
          )
      go (some a) e o h =
          let same : count ≡ i + suc count - suc i = omega arith in
          (
            i,
            omega arith,
            omega arith,
            e,
            ap (λ v. with_entry v (listed at count (suc i))) e
                ∙ ap (λ c. a ∷ listed at c (suc i)) same,
          )

-- The entry of an index in the array part, and in the hash part.
abbrev pub array_at : {K V : Type 0} → (ℕ → K) → List (Option V) → ℕ → Option (K × V)
array_at of_index array i = node_entry (some (of_index (suc i))) (element array (suc i))

abbrev pub node_at : {K V : Type 0} → Nodes K V → ℕ → Option (K × V)
node_at node i = node_entry (node i).key (node i).val

pub next_element-scan :
    {K V : Type 0} (of_index : ℕ → K) (array : List (Option V)) (count i : ℕ)
    → next_element of_index array count i ≡ scan (array_at of_index array) count i
unfolding next_element
next_element-scan of_index array zero i = refl
next_element-scan {K} {V} of_index array (suc count) i =
    go (element array (suc i)) (next_element-scan of_index array count (suc i))
  where
    go :
        (v : Option V)
        → next_element of_index array count (suc i) ≡ scan (array_at of_index array) count (suc i)
        → elim v [
          | none ↦ next_element of_index array count (suc i)
          | some v ↦ some (of_index (suc i), v)
        ]
          ≡ elim (node_entry (some (of_index (suc i))) v) [
            | none ↦ scan (array_at of_index array) count (suc i)
            | some e ↦ some e
          ]
    go none h = h
    go (some v) h = refl

pub next_node-scan :
    {K V : Type 0} (node : Nodes K V) (count i : ℕ)
    → next_node node count i ≡ scan (node_at node) count i
unfolding next_node
next_node-scan node zero i = refl
next_node-scan {K} {V} node (suc count) i = go (node_at node i) (next_node-scan node count (suc i))
  where
    go :
        (v : Option (K × V))
        → next_node node count (suc i) ≡ scan (node_at node) count (suc i)
        → elim v [ none ↦ next_node node count (suc i) | some e ↦ some e ]
          ≡ elim v [ none ↦ scan (node_at node) count (suc i) | some e ↦ some e ]
    go none h = h
    go (some v) h = refl

pub entry_parts :
    {K V : Type 0} (k : Option K) (v : Option V) (e : K × V)
    → node_entry k v ≡ some e
    → (k ≡ some e.0) × (v ≡ some e.1)
entry_parts none v e h = absurd cc
entry_parts (some k) none e h = absurd cc
entry_parts (some k) (some v) e h =
    let same : (k, v) ≡ e = same_some refl h in (ap (λ p. some p.0) same, ap (λ p. some p.1) same)
