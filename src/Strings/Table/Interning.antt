-- ===== src/Strings/Table/Interning.antt =====
-- `luaS_newlstr` (src/lstring.c) on the table as a map from texts to addresses.
use native.Mathlib.Nat.{pow-suc}
use mathlib.Core.Path.{subst}
use lunacy.Base.{
  ℕ, suc, ◌+◌, ◌*◌, ◌/◌, ◌^◌, ◌<◌, ◌≡◌, refl, ◌∙◌, false, ◌&&◌, List, [], none, some, ◌⊎◌, inl, inr,
  Bool-cases, if_both, same_bytes, same_bytes_refl, same_bytes→eq, ==_iff, ◌==◌, length, length-set,
  get_or, get_or-set_self, get_or-set_ne, set, arith, ltb, leb, u32, if◌then◌else◌,
}
use lunacy.Strings.SipHash.{sip_hash}
use lunacy.Strings.Table.{
  TString, StringTable, max_text, max_int, chain_in, resize, new_lstr, newlstr,
}
use lunacy.Strings.Table.Chains.{ChainOk, at, find, find-chain_in, length-chain_in, AllOk-chain_in}
use lunacy.Strings.Table.Resize.{lookup, no_strings, WellFormed, lmod_range, Keeps, resize-Keeps}
use lunacy.Strings.Table.Search.{Found, search_lem}

-- The result of interning: the object has the text, is alive, and is the one that the table has for
-- it now; every other text keeps its object; an object that was there is the result.
pub record Interned (tb : StringTable) (str : List ℕ) (ts : TString) (tb' : StringTable)
    : Type 0 where
  pub formed : WellFormed tb'
  pub text : ts.bytes ≡ str
  pub alive : ts.dead ≡ false
  pub here : lookup tb' str ≡ some ts.address
  pub others : (s : List ℕ) → (s ≡ str) ⊎ (lookup tb' s ≡ lookup tb s)
  pub before :
      (lookup tb str ≡ some ts.address) ⊎ ((lookup tb str ≡ none) × (ts.address ≡ tb.next_address))

double : (k : ℕ) → 2 ^ k * 2 ≡ 2 ^ suc k
double k = omega (arith, pow-suc 2 k)

get_or-set-cases :
    (hash : List (List TString)) (i j : ℕ) (chain : List TString)
    → i < length hash
    → ((j ≡ i) × (get_or (set hash i chain) j [] ≡ chain))
      ⊎ (get_or (set hash i chain) j [] ≡ get_or hash j [])
get_or-set-cases hash i j chain lt = elim (Bool-cases (j == i)) [
  | inl e ↦
      let same : j ≡ i = (==_iff j i).0 e in
      inl (same, rw same (get_or-set_self hash i chain no_strings lt))
  | inr e ↦ inr (get_or-set_ne hash i j chain no_strings (λ q. ground (arith, e, q)))
]

Found-Interned :
    (tb : StringTable) (str : List ℕ) (r : TString × List TString)
    → WellFormed tb
    → Found tb.key tb.size (at tb.key tb.size str) (get_or tb.hash (at tb.key tb.size str) []) str r
    → Interned tb str r.0 (record tb { hash = set tb.hash (at tb.key tb.size str) r.1 })
Found-Interned tb str r w f =
    let i = at tb.key tb.size str in
    let lt = lmod_range tb (sip_hash tb.key str) w in
    let self = get_or-set_self tb.hash i r.1 no_strings lt in
    let same : (s : List ℕ) → find tb.key tb.size (set tb.hash i r.1) s ≡ lookup tb s = λ s.
      elim (get_or-set-cases tb.hash i (at tb.key tb.size s) r.1 lt) [
        | inl e ↦ rw (e.1) (f.same s ∙ rw (e.0))
        | inr e ↦ rw e
      ] in
    record {
      formed = record {
        bits = w.bits;
        size = w.size;
        hash = length-set tb.hash i r.1 ∙ w.hash;
        chains = λ j. elim (get_or-set-cases tb.hash i j r.1 lt) [
          | inl e ↦
              let e' : 0 + j ≡ i = omega (arith, e.0) in
              rw (e.1, e') (record { placed = f.placed; distinct = f.distinct })
          | inr e ↦ rw e (w.chains j)
        ];
      };
      text = f.text;
      alive = f.alive;
      here = same str ∙ f.here;
      others = λ s. inr (same s);
      before = inl f.here;
    }

-- The table with a new string, before it is resized.
abbrev added : StringTable → TString → StringTable
added tb ts = record tb {
  hash = chain_in tb.size tb.hash ts;
  nuse = u32 (tb.nuse + 1);
  next_address = suc tb.next_address;
}

abbrev fresh : StringTable → List ℕ → TString
fresh tb str = record {
  address = tb.next_address;
  hash = sip_hash tb.key str;
  dead = false;
  bytes = str;
}

fresh-Interned :
    (tb : StringTable) (str : List ℕ) (tb' : StringTable)
    → WellFormed tb
    → lookup tb str ≡ none
    → Keeps (added tb (fresh tb str)) tb'
    → Interned tb str (fresh tb str) tb'
fresh-Interned tb str tb' w absent (formed, same) =
    let ts = fresh tb str in
    let found : (s : List ℕ)
        → lookup (added tb ts) s ≡ (if same_bytes s str then some ts.address else lookup tb s) =
      λ s. find-chain_in tb.key tb.size tb.hash ts s refl (lmod_range tb ts.hash w) in
    record {
      formed = formed;
      text = refl;
      alive = refl;
      here = same str ∙ found str ∙ rw (same_bytes_refl str);
      others = λ s. elim (Bool-cases (same_bytes s str)) [
        | inl e ↦ inl (same_bytes→eq s str e)
        | inr e ↦ inr (same s ∙ found s ∙ rw e)
      ];
      before = inr (absent, refl);
    }

added-Keeps :
    (tb : StringTable) (str : List ℕ)
    → WellFormed tb
    → lookup tb str ≡ none
    → Keeps (added tb (fresh tb str)) (added tb (fresh tb str))
added-Keeps tb str w absent =
    let ts = fresh tb str in
    (
      record {
        bits = w.bits;
        size = w.size;
        hash = length-chain_in tb.key tb.size tb.hash ts ∙ w.hash;
        chains =
            AllOk-chain_in tb.key tb.size tb.hash ts w.chains refl (lmod_range tb ts.hash w) absent;
      },
      λ s. refl,
    )

new_lstr-Interned :
    (tb : StringTable) (str : List ℕ)
    → WellFormed tb
    → length str < max_text
    → lookup tb str ≡ none
    → (ts : TString) × (tb' : StringTable) × (new_lstr tb str (sip_hash tb.key str)
        ≡ some (ts, tb'))
      × Interned tb str ts tb'
unfolding new_lstr
new_lstr-Interned tb str w room absent =
    let ts = fresh tb str in
    let crowded = ltb tb.size (u32 (tb.nuse + 1)) && leb tb.size (max_int / 2) in
    let bigger = resize (added tb ts) (tb.size * 2) in
    let fits : ltb max_text (length str + 1) ≡ false = ground arith in
    let now = added-Keeps tb str w absent in
    let later : Keeps (added tb ts) bigger =
      subst (λ n. Keeps (added tb ts) (resize (added tb ts) n))
        (omega (arith, double w.bits, w.size)) (resize-Keeps (added tb ts) (suc w.bits) now.0) in
    (
      ts,
      (if crowded then bigger else added tb ts),
      rw fits,
      if_both (Interned tb str ts) crowded (fresh-Interned tb str bigger w absent later)
          (fresh-Interned tb str (added tb ts) w absent now),
    )

-- In a well-formed table, interning a text that is not too big succeeds: the
-- table stays well-formed, the object has the text and is not dead, it is the object of its text
-- from now on, no other text's object changes, and the object is the one of this text if there was
-- one and at the allocator's next address if there was none.
pub newlstr-Interned :
    (tb : StringTable) (str : List ℕ)
    → WellFormed tb
    → length str < max_text
    → (ts : TString) × (tb' : StringTable) × (newlstr tb str ≡ some (ts, tb'))
      × Interned tb str ts tb'
unfolding newlstr
newlstr-Interned tb str w room =
    let i = at tb.key tb.size str in
    let chain = get_or tb.hash i [] in
    let zero_add : 0 + i ≡ i = omega arith in
    let ok = subst (λ n. ChainOk tb.key tb.size n chain) zero_add (w.chains i) in
    elim (search_lem tb.key tb.size i chain str ok.placed ok.distinct) [
      | inl e ↦
          let n = new_lstr-Interned tb str w room e.1 in (n.0, n.1, rw (e.0, newlstr) n.2, n.3)
      | inr q ↦
          let r = q.0 in
          let f = q.1 in
          (
            r.0,
            record tb { hash = set tb.hash i r.1 },
            rw (f.search, newlstr),
            Found-Interned tb str r w f,
          )
    ]

-- The result, whatever its name.
result-Interned :
    (tb tb' : StringTable) (str : List ℕ) (ts : TString)
    → WellFormed tb
    → length str < max_text
    → newlstr tb str ≡ some (ts, tb')
    → Interned tb str ts tb'
result-Interned tb tb' str ts w room e = go (newlstr-Interned tb str w room)
  where
    go :
        (ts' : TString) × (t : StringTable) × (newlstr tb str ≡ some (ts', t))
          × Interned tb str ts' t
        → Interned tb str ts tb'
    go (ts', t, e', i) =
        let left : TString × StringTable = (ts', t) in
        let right : TString × StringTable = (ts, tb') in
        let same : left ≡ right = cc in subst (λ r. Interned tb str r.0 r.1) same i

-- In a well-formed table, a text that is not too big and is interned twice in a row gives an object
-- at the same address both times.
pub newlstr-twice :
    (tb tb1 tb2 : StringTable) (str : List ℕ) (a b : TString)
    → WellFormed tb
    → length str < max_text
    → newlstr tb str ≡ some (a, tb1)
    → newlstr tb1 str ≡ some (b, tb2)
    → a.address ≡ b.address
newlstr-twice tb tb1 tb2 str a b w room first second =
    let i1 = result-Interned tb tb1 str a w room first in
    let i2 = result-Interned tb1 tb2 str b i1.formed room second in
    let here = i1.here in elim (i2.before) [ inl e ↦ cc | inr e ↦ let gone = e.0 in absurd cc ]
