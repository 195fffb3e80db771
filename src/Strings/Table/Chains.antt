-- ===== src/Strings/Table/Chains.antt =====
-- The chains of the string table (src/lstring.c): what a search finds in one, and what moving the
-- strings to another array of chains does to it.
use lunacy.Base.{
  ℕ, ◌+◌, ◌<◌, ◌≡◌, ◌≢◌, refl, sym, ap, ◌∙◌, List, [], ◌∷◌, Option, none, some, inl, inr,
  if◌then◌else◌, ◌==◌, ==_iff, Bool-cases, same_bytes, same_bytes→eq, length, length-set, get_or,
  get_or-set_self, get_or-set_ne, All, arith,
}
use lunacy.Strings.SipHash.{SipKey, sip_hash}
use lunacy.Strings.Table.{TString, lmod, chain_in}

abbrev pub or_else : Option ℕ → Option ℕ → Option ℕ
or_else none b = b
or_else (some a) b = some a

pub or_else-none : (a : Option ℕ) → or_else a none ≡ a
or_else-none none = refl
or_else-none (some x) = refl

pub or_else_assoc : (a b c : Option ℕ) → or_else a (or_else b c) ≡ or_else (or_else a b) c
or_else_assoc none b c = refl
or_else_assoc (some x) b c = refl

pub or_else_inv : (a : Option ℕ) → or_else a none ≡ none → a ≡ none
or_else_inv none h = refl
or_else_inv (some x) h = absurd cc

-- The address of the string with the text `s`.
abbrev pub find_in : List TString → List ℕ → Option ℕ
find_in [] s = none
find_in (p ∷ chain) s =
    let rest = find_in chain s in if same_bytes s p.bytes then some p.address else rest

-- No two strings have the same text.
abbrev pub Distinct : List TString → Type 0
Distinct [] = Unit
Distinct (p ∷ chain) = (find_in chain p.bytes ≡ none) × Distinct chain

module _ (key : SipKey) where
  -- A string in the chain `i` of `size`.
  pub record Placed (size i : ℕ) (p : TString) : Type 0 where
    pub hash : p.hash ≡ sip_hash key p.bytes
    pub index : lmod p.hash size ≡ i

  pub record ChainOk (size i : ℕ) (chain : List TString) : Type 0 where
    pub placed : All (Placed size i) chain
    pub distinct : Distinct chain

  abbrev pub at : ℕ → List ℕ → ℕ
  at size s = lmod (sip_hash key s) size

  abbrev pub find : ℕ → List (List TString) → List ℕ → Option ℕ
  find size hash s = find_in (get_or hash (at size s) []) s

  -- A text that belongs in another chain is not in this one.
  pub find_in-elsewhere :
      (size i : ℕ) (chain : List TString) (s : List ℕ)
      → All (Placed size i) chain
      → at size s ≢ i
      → find_in chain s ≡ none
  find_in-elsewhere size i [] s h ne = refl
  find_in-elsewhere size i (p ∷ chain) s (here, h) ne = elim (Bool-cases (same_bytes s p.bytes)) [
    | inl e ↦ absurd (
        ne (
          ap (at size) (same_bytes→eq s p.bytes e)
          ∙ ap (λ x. lmod x size) (sym here.hash)
          ∙ here.index))
    | inr e ↦ rw e (find_in-elsewhere size i chain s h ne)
  ]

  pub find-chain_in :
      (size : ℕ) (hash : List (List TString)) (p : TString) (s : List ℕ)
      → p.hash ≡ sip_hash key p.bytes
      → lmod p.hash size < length hash
      → find size (chain_in size hash p) s
        ≡ (if same_bytes s p.bytes then some p.address else find size hash s)
  unfolding chain_in
  find-chain_in size hash p s e lt =
      let i = lmod p.hash size in
      let chain = p ∷ get_or hash i [] in
      elim (Bool-cases (at size s == i)) [
        | inl same ↦
            let same' : at size s ≡ i = (==_iff _ _).0 same in
            rw (same', get_or-set_self hash i chain [] lt)
        | inr ne ↦
            let ne' : i ≢ at size s = λ q. ground (arith, ne, q) in
            elim (Bool-cases (same_bytes s p.bytes)) [
              | inl eq ↦
                  absurd (
                    ne' (ap (λ x. lmod x size) e ∙ sym (ap (at size) (same_bytes→eq s p.bytes eq))))
              | inr differs ↦ rw (get_or-set_ne hash i (at size s) chain [] ne', differs)
            ]
      ]

  pub length-chain_in :
      (size : ℕ) (hash : List (List TString)) (p : TString)
      → length (chain_in size hash p) ≡ length hash
  unfolding chain_in
  length-chain_in size hash p = length-set hash _ _

  -- Every chain of the array is well-formed.
  abbrev pub AllOk : ℕ → ℕ → List (List TString) → Type 0
  AllOk size j hash = (i : ℕ) → ChainOk size (j + i) (get_or hash i [])

  pub AllOk-chain_in :
      (size : ℕ) (hash : List (List TString)) (p : TString)
      → AllOk size 0 hash
      → p.hash ≡ sip_hash key p.bytes
      → lmod p.hash size < length hash
      → find size hash p.bytes ≡ none
      → AllOk size 0 (chain_in size hash p)
  unfolding chain_in
  AllOk-chain_in size hash p h e lt new i =
      let j = lmod p.hash size in
      let chain = p ∷ get_or hash j [] in
      elim (Bool-cases (i == j)) [
        | inl same ↦
            let same' : i ≡ j = (==_iff _ _).0 same in
            let old = h j in
            rw (same', get_or-set_self hash j chain [] lt)
              (record {
                placed = (record { hash = e; index = omega arith }, old.placed);
                distinct = (rw (← e) at new, old.distinct);
              })
        | inr ne ↦
            let ne' : j ≢ i = λ q. ground (arith, ne, q) in
            rw (get_or-set_ne hash j i chain [] ne') (h i)
      ]
