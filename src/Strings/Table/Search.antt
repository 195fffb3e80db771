-- ===== src/Strings/Table/Search.antt =====
-- The search of `luaS_newlstr` (src/lstring.c) in one chain.
use lunacy.Base.{
  ℕ, ◌≡◌, refl, sym, ◌∙◌, false, ◌&&◌, List, [], ◌∷◌, none, some, ◌⊎◌, inl, inr, ◌==◌, Bool-cases,
  same_bytes, same_bytes→eq, length, All, arith,
}
use lunacy.Strings.SipHash.{SipKey}
use lunacy.Strings.Table.{TString, search_chain}
use lunacy.Strings.Table.Chains.{find_in, Distinct, Placed}

-- The result of a search that finds the text: the string, alive, and the chain with it alive.
pub record Found (key : SipKey) (size i : ℕ) (chain : List TString) (str : List ℕ)
    (r : TString × List TString) : Type 0 where
  pub search : search_chain chain str ≡ some r
  pub text : r.0.bytes ≡ str
  pub alive : r.0.dead ≡ false
  pub here : find_in chain str ≡ some r.0.address
  pub same : (s : List ℕ) → find_in r.1 s ≡ find_in chain s
  pub placed : All (Placed key size i) r.1
  pub distinct : Distinct r.1

same_text : (a b : List ℕ) → (length a == length b && same_bytes b a) ≡ same_bytes b a
same_text a b = elim (Bool-cases (same_bytes b a)) [
  | inl e ↦ let eq : b ≡ a = same_bytes→eq b a e in rw (e, eq) (ground arith)
  | inr e ↦ rw e (ground arith)
]

pub search_lem :
    (key : SipKey) (size i : ℕ) (chain : List TString) (str : List ℕ)
    → All (Placed key size i) chain
    → Distinct chain
    → ((search_chain chain str ≡ none) × (find_in chain str ≡ none))
      ⊎ ((r : TString × List TString) × Found key size i chain str r)
unfolding search_chain
search_lem key size i [] str h d = inl (refl, refl)
search_lem key size i (o ∷ next) str (here, h) (new, d) =
    elim (Bool-cases (same_bytes str o.bytes)) [
      | inl e ↦
          let eq = same_bytes→eq str o.bytes e in
          let found : TString = record o { dead = false } in
          inr (
            (found, found ∷ next),
            record {
              search = rw (same_text o.bytes str, e);
              text = sym eq;
              alive = refl;
              here = rw e;
              same = λ s. refl;
              placed = (record { hash = here.hash; index = here.index }, h);
              distinct = (new, d);
            },
          )
      | inr e ↦ elim (search_lem key size i next str h d) [
        | inl q ↦ inl (rw (same_text o.bytes str, e, q.0), rw e q.1)
        | inr q ↦
            let r = q.0 in
            let f = q.1 in
            inr (
              (r.0, o ∷ r.1),
              record {
                search = rw (same_text o.bytes str, e, f.search);
                text = f.text;
                alive = f.alive;
                here = rw e f.here;
                same = λ s. rw (f.same s);
                placed = (here, f.placed);
                distinct = (f.same o.bytes ∙ new, f.distinct);
              },
            )
      ]
    ]
