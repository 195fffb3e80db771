-- ===== src/Tables/Hash/Values.antt =====
-- The values of the hash part (src/ltable.c) for each key, and what moves a node without a change to them.
use lunacy.Base.{
  ℕ, ◌<◌, ◌≡◌, ◌≢◌, refl, sym, ap, ◌∙◌, true, Option, none, some, if_cases, ◌==◌, arith,
}
use lunacy.Tables.Hash.{Keys, Node, Nodes, update, key_is, has_key, search, val_at}
use lunacy.Tables.Hash.Chains.{Chained}
use lunacy.Tables.Hash.Search.{Found, search-Found, search-only}

-- A property of what stands at `j` after an update at `i`.
pub update_cases {ℓ} :
    {A : Type 0} (P : A → Type ℓ) (f : ℕ → A) (i : ℕ) (a : A) (j : ℕ)
    → (j ≡ i → P a)
    → (j ≢ i → P (f j))
    → P (update f i a j)
update_cases P f i a j here there =
    if_cases P (j == i) (λ h. here (ground arith)) (λ h. there (ground arith))

pub update-here : {A : Type 0} (f : ℕ → A) (i : ℕ) (a : A) → update f i a i ≡ a
update-here f i a = update_cases (λ b. b ≡ a) f i a i (λ e. refl) (λ ne. absurd (ne refl))

pub update-there : {A : Type 0} (f : ℕ → A) (i : ℕ) (a : A) (j : ℕ) → j ≢ i → update f i a j ≡ f j
update-there f i a j h = update_cases (λ b. b ≡ f j) f i a j (λ e. absurd (h e)) (λ ne. refl)

module _ {K V : Type 0} where
  -- A node with the value and the key of a node of another array.
  abbrev pub Copy : ℕ → Node K V → Nodes K V → V → Type 0
  Copy size n node' v = (i : ℕ) × (i < size) × ((node' i).key ≡ n.key) × ((node' i).val ≡ some v)

  -- Every value of the one array is in the other, with its key.
  abbrev pub Keeps : ℕ → Nodes K V → Nodes K V → Type 0
  Keeps size node node' =
      (i : ℕ) (v : V) → i < size → (node i).val ≡ some v → Copy size (node i) node' v

-- An array with one key more, at `p`, and the same values.
abbrev pub NewNodes : {K V : Type 0} → Keys K → ℕ → Nodes K V → Nodes K V → K → ℕ → Type 0
NewNodes keys size node node' k p =
    Chained keys size node'
    × Keeps size node node'
    × Keeps size node' node
    × ((node' p).key ≡ some k)

module _ {K V : Type 0} (keys : Keys K) (size : ℕ) (room : 0 < size) where
  abbrev pub value : Nodes K V → K → Option V
  value node k = val_at node (search keys size node (keys.main_position size k) k)

  abbrev Live : Nodes K V → K → V → Type 0
  Live node k v = (i : ℕ) × (i < size) × (has_key keys (node i) k ≡ true) × ((node i).val ≡ some v)

  value-Live :
      (node : Nodes K V)
      → Chained keys size node
      → (k : K) (v : V) → value node k ≡ some v
      → Live node k v
  value-Live node c k v h =
      go (search keys size node (keys.main_position size k) k)
        (search-Found keys size node c size (keys.main_position size k) k
          (keys.position-lt size k room))
        h
    where
      go : (o : Option ℕ) → Found keys size node k o → val_at node o ≡ some v → Live node k v
      go none f e = absurd cc
      go (some i) (less, at) e = (i, less, at, e)

  pub Live-value :
      (node : Nodes K V)
      → Chained keys size node
      → (i : ℕ) (k : K) (v : V) → i < size
      → has_key keys (node i) k ≡ true
      → (node i).val ≡ some v
      → value node k ≡ some v
  Live-value node c i k v less at e =
      ap (val_at node) (search-only keys size node c room i k less at) ∙ e

  Keeps-value :
      (node node' : Nodes K V)
      → Chained keys size node
      → Chained keys size node'
      → Keeps size node node'
      → (k : K) (v : V) → value node k ≡ some v
      → value node' k ≡ some v
  Keeps-value node node' c c' keeps k v h =
      let (i, less, at, e) = value-Live node c k v h in
      let (i', less', same, e') = keeps i v less e in
      Live-value node' c' i' k v less' (ap (λ o. key_is keys o k) same ∙ at) e'

  -- The two arrays give the same value for each key.
  pub Keeps-same :
      (node node' : Nodes K V)
      → Chained keys size node
      → Chained keys size node'
      → Keeps size node node'
      → Keeps size node' node
      → (k : K) → value node' k ≡ value node k
  Keeps-same node node' c c' keeps back k = go (value node k) (value node' k) refl refl
    where
      go : (o o' : Option V) → value node k ≡ o → value node' k ≡ o' → value node' k ≡ value node k
      go none none e e' = e' ∙ sym e
      go (some v) o' e e' = Keeps-value node node' c c' keeps k v e ∙ sym e
      go none (some w) e e' = e' ∙ sym (Keeps-value node' node c' c back k w e')
