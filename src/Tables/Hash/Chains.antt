-- ===== src/Tables/Hash/Chains.antt =====
-- The chains of the hash part (src/ltable.c): what holds of the nodes between two operations, and what
-- the searches find then.
use lunacy.Base.{ℕ, ◌<◌, ◌≡◌, true, none, some}
use lunacy.Tables.{is_some}
use lunacy.Tables.Hash.{Keys, Nodes}

module _ {K V : Type 0} where
  -- The chain from `m` comes to `i`.
  pub data Reach (node : Nodes K V) : ℕ → ℕ → Type 0 where
    stop : (i : ℕ) → Reach node i i
    onward : (m j i : ℕ) → (node m).next ≡ some j → Reach node j i → Reach node m i

  -- Chains do not meet and end; every key is in the chain from its main position, which has a key of
  -- its own; no two nodes have one key.
  pub record Chained (keys : Keys K) (size : ℕ) (node : Nodes K V) : Type 0 where
    pub height : ℕ → ℕ
    pub lower : (i j : ℕ) → (node i).next ≡ some j → height j < height i
    pub target : (i j : ℕ) → (node i).next ≡ some j → (j < size) × (is_some (node j).key ≡ true)
    pub source : (i j : ℕ) → (node i).next ≡ some j → is_some (node i).key ≡ true
    pub one_before : (i i' j : ℕ) → (node i).next ≡ some j → (node i').next ≡ some j → i ≡ i'
    pub reached :
        (i : ℕ) (k : K)
        → i < size
        → (node i).key ≡ some k
        → Reach node (keys.main_position size k) i
    pub owner :
        (i : ℕ) (k : K)
        → i < size
        → (node i).key ≡ some k
        → (l : K) × ((node (keys.main_position size k)).key ≡ some l)
          × (keys.main_position size l ≡ keys.main_position size k)
    pub distinct :
        (i j : ℕ) (k l : K)
        → i < size
        → j < size
        → (node i).key ≡ some k
        → (node j).key ≡ some l
        → keys.raw_equal k l ≡ true
        → i ≡ j
    pub empty : (i : ℕ) → (node i).key ≡ none → (node i).val ≡ none
