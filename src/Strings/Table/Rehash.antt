-- ===== src/Strings/Table/Rehash.antt =====
-- The loops of `luaS_resize` (src/lstring.c): what is found in the new array.
use lunacy.Base.{
  ℕ, zero, suc, ◌+◌, ◌<◌, ◌≡◌, refl, ap, ◌∙◌, List, [], ◌∷◌, Option, none, ◌⊎◌, inl, inr, ◌==◌,
  Bool-cases, Option-cases, same_bytes, same_bytes_refl, same_bytes→eq, length, get_or, All, arith,
}
use lunacy.Strings.SipHash.{SipKey, sip_hash}
use lunacy.Strings.Table.{TString, lmod, chain_in, rehash_chain, rehash_all}
use lunacy.Strings.Table.Chains.{
  find_in, Distinct, or_else, or_else_inv, or_else-none, or_else_assoc, Placed, ChainOk, at, find,
  AllOk, find-chain_in, length-chain_in, AllOk-chain_in, find_in-elsewhere,
}

-- `size` is that of the new array, in which each index that `lmod` gives is in range.
module _ (key : SipKey) (size : ℕ) (room : (x : ℕ) → lmod x size < size) where
  abbrev Hashed : TString → Type 0
  Hashed p = p.hash ≡ sip_hash key p.bytes

  abbrev Disjoint : (List ℕ → Option ℕ) → List (List TString) → Type 0
  Disjoint from hash = (s : List ℕ) → (from s ≡ none) ⊎ (find key size hash s ≡ none)

  length-rehash_chain :
      (chain : List TString) (hash : List (List TString))
      → length (rehash_chain size chain hash) ≡ length hash
  unfolding rehash_chain
  length-rehash_chain [] hash = refl
  length-rehash_chain (p ∷ chain) hash =
      length-rehash_chain chain (chain_in size hash p) ∙ length-chain_in key size hash p

  in_range : (hash : List (List TString)) (x : ℕ) → length hash ≡ size → lmod x size < length hash
  in_range hash x e = rw e (room x)

  find-rehash_chain :
      (chain : List TString) (hash : List (List TString)) (s : List ℕ)
      → Distinct chain
      → All Hashed chain
      → length hash ≡ size
      → find key size (rehash_chain size chain hash) s
        ≡ or_else (find_in chain s) (find key size hash s)
  unfolding rehash_chain
  find-rehash_chain [] hash s d h e = refl
  find-rehash_chain (p ∷ chain) hash s (new, d) (here, h) e =
      let hash' = chain_in size hash p in
      let later = find-rehash_chain chain hash' s d h (length-chain_in key size hash p ∙ e) in
      let moved = find-chain_in key size hash p s here (in_range hash p.hash e) in
      elim (Bool-cases (same_bytes s p.bytes)) [
        | inl eq ↦
            let same = same_bytes→eq s p.bytes eq in
            let gone : find_in chain s ≡ none = rw same new in later ∙ rw (moved, eq, gone)
        | inr differs ↦ later ∙ rw (moved, differs)
      ]

  AllOk-rehash_chain :
      (chain : List TString) (hash : List (List TString))
      → Distinct chain
      → All Hashed chain
      → length hash ≡ size
      → Disjoint (find_in chain) hash
      → AllOk key size 0 hash
      → AllOk key size 0 (rehash_chain size chain hash)
  unfolding rehash_chain
  AllOk-rehash_chain [] hash d h e apart ok = ok
  AllOk-rehash_chain (p ∷ chain) hash (new, d) (here, h) e apart ok =
      let hash' = chain_in size hash p in
      let range = in_range hash p.hash e in
      let absent : find key size hash p.bytes ≡ none = elim (apart p.bytes) [
        | inl q ↦ let found = simp (same_bytes_refl p.bytes) at q in absurd cc
        | inr q ↦ q
      ] in
      let apart' : Disjoint (find_in chain) hash' = λ s. elim (Bool-cases (same_bytes s p.bytes)) [
        | inl eq ↦ inl (rw (same_bytes→eq s p.bytes eq) new)
        | inr differs ↦ elim (apart s) [
          | inl q ↦ inl (rw differs at q)
          | inr q ↦ inr (find-chain_in key size hash p s here range ∙ rw differs q)
        ]
      ] in
      AllOk-rehash_chain chain hash' d h (length-chain_in key size hash p ∙ e) apart'
        (AllOk-chain_in key size hash p ok here range absent)

  -- The old array, of `old` chains: a text can only be in its own.
  module _ (old : ℕ) where
    abbrev find_chains : List (List TString) → List ℕ → Option ℕ
    find_chains [] s = none
    find_chains (c ∷ cs) s = or_else (find_chains cs s) (find_in c s)

    tail_ok :
        (j : ℕ) (c : List TString) (cs : List (List TString))
        → AllOk key old j (c ∷ cs)
        → AllOk key old (suc j) cs
    tail_ok j c cs ok i = let e : suc j + i ≡ j + suc i = omega arith in rw e (ok (suc i))

    head_ok :
        (j : ℕ) (c : List TString) (cs : List (List TString))
        → AllOk key old j (c ∷ cs)
        → ChainOk key old j c
    head_ok j c cs ok = let e : j ≡ j + 0 = omega arith in rw e (ok 0)

    find_chains-below :
        (cs : List (List TString)) (j : ℕ) (s : List ℕ)
        → AllOk key old j cs
        → at key old s < j
        → find_chains cs s ≡ none
    find_chains-below [] j s ok lt = refl
    find_chains-below (c ∷ cs) j s ok lt =
        let ok' = head_ok j c cs ok in
        rw (
          find_chains-below cs (suc j) s (tail_ok j c cs ok) (omega arith),
          find_in-elsewhere key old j c s ok'.placed (λ e. omega (arith, e)),
        )

    pub find_chains-at :
        (cs : List (List TString)) (j i : ℕ) (s : List ℕ)
        → AllOk key old j cs
        → at key old s ≡ j + i
        → find_chains cs s ≡ find_in (get_or cs i []) s
    find_chains-at [] j i s ok e = refl
    find_chains-at (c ∷ cs) j zero s ok e =
        rw (find_chains-below cs (suc j) s (tail_ok j c cs ok) (omega (arith, e)))
    find_chains-at (c ∷ cs) j (suc i) s ok e =
        let ok' = head_ok j c cs ok in
        let none_here = find_in-elsewhere key old j c s ok'.placed (λ q. omega (arith, e, q)) in
        rw (none_here, find_chains-at cs (suc j) i s (tail_ok j c cs ok) (omega (arith, e)))
          (or_else-none (find_in (get_or cs i []) s))

    All-Hashed : (j : ℕ) (c : List TString) → All (Placed key old j) c → All Hashed c
    All-Hashed j [] h = tt
    All-Hashed j (p ∷ c) (here, h) = (here.hash, All-Hashed j c h)

    pub find-rehash_all :
        (cs : List (List TString)) (j : ℕ) (hash : List (List TString)) (s : List ℕ)
        → AllOk key old j cs
        → length hash ≡ size
        → find key size (rehash_all size cs hash) s
          ≡ or_else (find_chains cs s) (find key size hash s)
    unfolding rehash_all
    find-rehash_all [] j hash s ok e = refl
    find-rehash_all (c ∷ cs) j hash s ok e =
        let here = head_ok j c cs ok in
        let hash' = rehash_chain size c hash in
        find-rehash_all cs (suc j) hash' s (tail_ok j c cs ok) (length-rehash_chain c hash ∙ e)
        ∙ ap (or_else (find_chains cs s))
            (find-rehash_chain c hash s here.distinct (All-Hashed j c here.placed) e)
        ∙ or_else_assoc (find_chains cs s) (find_in c s) (find key size hash s)

    pub AllOk-rehash_all :
        (cs : List (List TString)) (j : ℕ) (hash : List (List TString))
        → AllOk key old j cs
        → length hash ≡ size
        → Disjoint (find_chains cs) hash
        → AllOk key size 0 hash
        → (length (rehash_all size cs hash) ≡ size) × AllOk key size 0 (rehash_all size cs hash)
    unfolding rehash_all
    AllOk-rehash_all [] j hash ok e apart done = (e, done)
    AllOk-rehash_all (c ∷ cs) j hash ok e apart done =
        let here = head_ok j c cs ok in
        let later = tail_ok j c cs ok in
        let hash' = rehash_chain size c hash in
        let hashed = All-Hashed j c here.placed in
        let apart_here : Disjoint (find_in c) hash = λ s. elim (apart s) [
          | inl q ↦ elim (Option-cases (find_chains cs s)) [
            | inl o ↦ inl (rw o at q)
            | inr o ↦ let found = rw (o.1) at q in absurd cc
          ]
          | inr q ↦ inr q
        ] in
        let apart_later : Disjoint (find_chains cs) hash' = λ s.
          elim (Bool-cases (at key old s == j)) [
            | inl same ↦ inl (find_chains-below cs (suc j) s later (ground (arith, same)))
            | inr ne ↦
                let elsewhere =
                  find_in-elsewhere key old j c s here.placed (λ q. ground (arith, ne, q)) in
                elim (apart s) [
                  | inl q ↦ inl (or_else_inv _ (rw elsewhere at q))
                  | inr q ↦
                      inr (find-rehash_chain c hash s here.distinct hashed e ∙ rw (elsewhere, q))
                ]
          ] in
        AllOk-rehash_all cs (suc j) hash' later (length-rehash_chain c hash ∙ e) apart_later
          (AllOk-rehash_chain c hash here.distinct hashed e apart_here done)
