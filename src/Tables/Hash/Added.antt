-- ===== src/Tables/Hash/Added.antt =====
-- An array of nodes (src/ltable.c) with one key more: each other key comes from a node of its own.
use mathlib.Core.Path.{subst}
use lunacy.Base.{
  ℕ, ◌<◌, ◌≡◌, ◌≢◌, sym, ap, ◌∙◌, inl, inr, true, false, Option, none, some, ==-cases,
}
use lunacy.Tables.{is_some}
use lunacy.Tables.Hash.{Keys, Nodes, key_is, has_key}
use lunacy.Tables.Hash.Chains.{Reach, Chained}

pub same_some : {A : Type 0} {a b : A} {o : Option A} → o ≡ some a → o ≡ some b → a ≡ b
same_some {a = a} {b = b} h h' = let both : some a ≡ some b = sym h ∙ h' in cc

-- The key at a position that an array owns is one of its own.
abbrev pub Owned : {K V : Type 0} → Keys K → ℕ → Nodes K V → ℕ → Type 0
Owned {K} keys size node q = (l : K) × ((node q).key ≡ some l) × (keys.main_position size l ≡ q)

-- No link leaves a node without a key, or comes to it.
pub free_unlinked :
    {K V : Type 0} (keys : Keys K) (size : ℕ) (node : Nodes K V) (c : Chained keys size node)
    (n : ℕ)
    → (node n).key ≡ none
    → (i j : ℕ) → (node i).next ≡ some j
    → (i ≢ n) × (j ≢ n)
free_unlinked keys size node c n free i j e = (
  (λ here.
      let keyed : is_some (node n).key ≡ true =
        ap (λ x. is_some (node x).key) (sym here) ∙ c.source i j e in
      let bare : is_some (node n).key ≡ false = ap is_some free in absurd cc),
  (λ here.
      let keyed : is_some (node n).key ≡ true =
        ap (λ x. is_some (node x).key) (sym here) ∙ (c.target i j e).1 in
      let bare : is_some (node n).key ≡ false = ap is_some free in absurd cc),
)

module _ {K V : Type 0} (keys : Keys K) (size : ℕ) (node after : Nodes K V)
    (c : Chained keys size node) (k : K)
    (absent : (i : ℕ) → i < size → has_key keys (node i) k ≡ false) (p : ℕ)
    (at_p : (after p).key ≡ some k) (from : ℕ → ℕ)
    (from-lt : (i : ℕ) → i < size → i ≢ p → from i < size)
    (from_key : (i : ℕ) → i < size → i ≢ p → (after i).key ≡ (node (from i)).key)
    (from_one : (i j : ℕ) → i < size → j < size → i ≢ p → j ≢ p → from i ≡ from j → i ≡ j) where
  key-p : (i : ℕ) (l : K) → i ≡ p → (after i).key ≡ some l → l ≡ k
  key-p i l here e = same_some (sym (ap (λ j. (after j).key) here) ∙ e) at_p

  other-key :
      (i : ℕ) (l : K) → i < size → i ≢ p → (after i).key ≡ some l → keys.raw_equal l k ≡ false
  other-key i l less there e =
      sym (ap (λ o. key_is keys o k) (sym (from_key i less there) ∙ e))
      ∙ absent (from i) (from-lt i less there)

  pub distinct-added :
      (i j : ℕ) (l m : K)
      → i < size
      → j < size
      → (after i).key ≡ some l
      → (after j).key ≡ some m
      → keys.raw_equal l m ≡ true
      → i ≡ j
  distinct-added i j l m less less' e e' h = elim (==-cases i p) [
    | inl here ↦ elim (==-cases j p) [
      | inl here' ↦ here ∙ sym here'
      | inr there' ↦
          let lk = key-p i l here e in
          let m_k : keys.raw_equal m k ≡ true =
            keys.raw_equal_sym k m (subst (λ x. keys.raw_equal x m ≡ true) lk h) in
          let not_k = other-key j m less' there' e' in absurd cc
    ]
    | inr there ↦ elim (==-cases j p) [
      | inl here' ↦
          let mk = key-p j m here' e' in
          let l_k : keys.raw_equal l k ≡ true = subst (λ x. keys.raw_equal l x ≡ true) mk h in
          let not_k = other-key i l less there e in absurd cc
      | inr there' ↦ from_one i j less less' there there' (
          c.distinct (from i) (from j) l m (from-lt i less there) (from-lt j less' there')
            (sym (from_key i less there) ∙ e) (sym (from_key j less' there') ∙ e') h)
    ]
  ]

  pub reached-added :
      Reach after (keys.main_position size k) p
      → ((i : ℕ) (l : K)
          → i < size
          → i ≢ p
          → (after i).key ≡ some l
          → Reach after (keys.main_position size l) i)
      → (i : ℕ) (l : K) → i < size
      → (after i).key ≡ some l
      → Reach after (keys.main_position size l) i
  reached-added new old i l less e = elim (==-cases i p) [
    | inl here ↦
        subst (λ j. Reach after (keys.main_position size l) j) (sym here)
          (subst (λ x. Reach after (keys.main_position size x) p) (sym (key-p i l here e)) new)
    | inr there ↦ old i l less there e
  ]

  pub owner-added :
      Owned keys size after (keys.main_position size k)
      → ((q : ℕ) → q < size → Owned keys size node q → Owned keys size after q)
      → 0 < size
      → (i : ℕ) (l : K) → i < size
      → (after i).key ≡ some l
      → Owned keys size after (keys.main_position size l)
  owner-added new old room i l less e = elim (==-cases i p) [
    | inl here ↦
        subst (λ x. Owned keys size after (keys.main_position size x)) (sym (key-p i l here e)) new
    | inr there ↦
        old (keys.main_position size l) (keys.position-lt size l room)
          (c.owner (from i) l (from-lt i less there) (sym (from_key i less there) ∙ e))
  ]
