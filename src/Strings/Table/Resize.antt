-- ===== src/Strings/Table/Resize.antt =====
-- `luaS_resize` (src/lstring.c) on the table as a map from texts to addresses.
use native.Mathlib.Nat.{one-le-pow}
use lunacy.Base.{
  ℕ, ◌^◌, ◌<◌, ◌≡◌, refl, ◌∙◌, List, [], Option, none, inr, if_both, length, length-replicate,
  get_or-replicate, replicate, arith,
}
use lunacy.Base.Bits.{bit_and_mask}
use lunacy.Strings.Table.{TString, StringTable, lmod, rehash_all, resize}
use lunacy.Strings.Table.Chains.{at, find, AllOk, or_else-none}
use lunacy.Strings.Table.Rehash.{find-rehash_all, find_chains-at, AllOk-rehash_all}

-- The address of the object with the text `s`.
abbrev pub lookup : StringTable → List ℕ → Option ℕ
lookup tb s = find tb.key tb.size tb.hash s

-- The size is a power of 2, and each chain holds the strings whose hash leads to it, no two with the
-- same text.
pub record WellFormed (tb : StringTable) : Type 0 where
  pub bits : ℕ
  pub size : tb.size ≡ 2 ^ bits
  pub hash : length tb.hash ≡ tb.size
  pub chains : AllOk tb.key tb.size 0 tb.hash

abbrev pub no_strings : List TString
no_strings = []

lmod-lt : (k x : ℕ) → lmod x (2 ^ k) < 2 ^ k
lmod-lt k x = omega (arith, bit_and_mask k x, one-le-pow k 2)

pub lmod_range : (tb : StringTable) (x : ℕ) → WellFormed tb → lmod x tb.size < length tb.hash
lmod_range tb x w = rw (w.hash, w.size) (lmod-lt w.bits x)

-- The table `tb'` is well-formed and has the objects of `tb`.
abbrev pub Keeps : StringTable → StringTable → Type 0
Keeps tb tb' = WellFormed tb' × ((s : List ℕ) → lookup tb' s ≡ lookup tb s)

rehash-Keeps :
    (tb : StringTable) (k : ℕ)
    → WellFormed tb
    → Keeps tb
        (record tb { size = 2 ^ k; hash = rehash_all (2 ^ k) tb.hash (replicate (2 ^ k) []) })
rehash-Keeps tb k w =
    let n = 2 ^ k in
    let start : List (List TString) = replicate n [] in
    let empty : (s : List ℕ) → find tb.key n start s ≡ none =
      λ s. rw (get_or-replicate n (at tb.key n s) no_strings) in
    let start_ok : AllOk tb.key n 0 start =
      λ i. rw (get_or-replicate n i no_strings) (record { placed = tt; distinct = tt }) in
    let count = length-replicate n no_strings in
    let moved =
      AllOk-rehash_all tb.key n (lmod-lt k) tb.size tb.hash 0 start w.chains count
        (λ s. inr (empty s)) start_ok in
    let found : (s : List ℕ) → find tb.key n (rehash_all n tb.hash start) s ≡ lookup tb s = λ s.
      find-rehash_all tb.key n (lmod-lt k) tb.size tb.hash 0 start s w.chains count
      ∙ rw (empty s) (or_else-none _)
      ∙ find_chains-at tb.key n (lmod-lt k) tb.size tb.hash 0 (at tb.key tb.size s) s w.chains
          (omega arith) in
    (record { bits = k; size = refl; hash = moved.0; chains = moved.1 }, found)

-- A well-formed table stays well-formed when it is resized to a power of 2, and has the same
-- objects: each text is found at the address where it was, or is still absent.
pub resize-Keeps : (tb : StringTable) (k : ℕ) → WellFormed tb → Keeps tb (resize tb (2 ^ k))
unfolding resize
resize-Keeps tb k w = if_both (Keeps tb) tb.sweeping (w, λ s. refl) (rehash-Keeps tb k w)
