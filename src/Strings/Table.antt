-- ===== src/Strings/Table.antt =====
-- The string table of src/lstring.c (`luaS_newlstr`, `newlstr`, `luaS_resize`) and the macros that
-- it uses. An object of the heap has an address; the allocator gives an unused one.
pub mod Chains
pub mod Rehash
pub mod Resize
pub mod Search
pub mod Interning
use lunacy.Base.{
  ℕ, suc, ◌+◌, ◌-◌, ◌*◌, ◌/◌, ◌^◌, ◌<◌, ◌≡◌, refl, Bool, true, false, ◌&&◌, List, [], ◌∷◌, Option,
  none, some, bit_and, ltb, leb, ◌==◌, if◌then◌else◌, same_bytes, length, get_or, set, replicate,
  u32,
}
use lunacy.Strings.SipHash.{SipKey, sip_hash}

-- `TString` and its bytes. `dead` is `isdead`: the mark has the white of the last cycle.
pub record TString : Type 0 where
  pub address : ℕ
  pub hash : ℕ
  pub dead : Bool
  pub bytes : List ℕ

-- `stringtable`, with the hash key, whether the collector sweeps strings, and the allocator's next
-- address.
pub record StringTable : Type 0 where
  pub hash : List (List TString)
  pub size : ℕ
  pub nuse : ℕ
  pub sweeping : Bool
  pub key : SipKey
  pub next_address : ℕ

-- `lmod(s, size)`, for a size that is a power of 2.
abbrev pub lmod : ℕ → ℕ → ℕ
lmod s size = bit_and s (size - 1)

-- `MAX_INT`, and the longest text that has room after its header of 24 bytes.
unfoldable pub max_int : ℕ
max_int = 2 ^ 31 - 3

unfoldable pub max_text : ℕ
max_text = 2 ^ 64 - 3 - 24

-- The new array of chains: an element goes in front of its chain.
unfoldable pub chain_in : ℕ → List (List TString) → TString → List (List TString)
chain_in size hash p = set hash (lmod p.hash size) (p ∷ get_or hash (lmod p.hash size) [])

-- The `while` loop over one chain, and the `for` loop over the chains.
unfoldable pub rehash_chain : ℕ → List TString → List (List TString) → List (List TString)
rehash_chain size [] hash = hash
rehash_chain size (p ∷ next) hash = rehash_chain size next (chain_in size hash p)

unfoldable pub rehash_all : ℕ → List (List TString) → List (List TString) → List (List TString)
rehash_all size [] hash = hash
rehash_all size (chain ∷ chains) hash = rehash_all size chains (rehash_chain size chain hash)

-- `luaS_resize`
unfoldable pub resize : StringTable → ℕ → StringTable
resize tb newsize =
    if tb.sweeping
    then tb
    else record tb { size = newsize; hash = rehash_all newsize tb.hash (replicate newsize []) }

-- `newlstr`: the new string at the front of its chain. No result: the text is too big.
unfoldable pub new_lstr : StringTable → List ℕ → ℕ → Option (TString × StringTable)
new_lstr tb str h =
    let ts : TString = record { address = tb.next_address; hash = h; dead = false; bytes = str } in
    let added = record tb {
      hash = chain_in tb.size tb.hash ts;
      nuse = u32 (tb.nuse + 1);
      next_address = suc tb.next_address;
    } in
    if ltb max_text (length str + 1)
    then none
    else some (
      ts,
      if ltb tb.size (u32 (tb.nuse + 1)) && leb tb.size (max_int / 2)
          then resize added (tb.size * 2)
          else added,
    )

-- The loop of `luaS_newlstr` over a chain: the string with this text, and the chain, in which a dead
-- one is alive again (`changewhite`).
unfoldable pub search_chain : List TString → List ℕ → Option (TString × List TString)
search_chain [] str = none
search_chain (o ∷ next) str =
    let rest = search_chain next str in
    if length o.bytes == length str && same_bytes str o.bytes
    then (let found : TString = record o { dead = false } in some (found, found ∷ next))
    else elim rest [ none ↦ none | some r ↦ some (r.0, o ∷ r.1) ]

-- `luaS_newlstr`
unfoldable pub newlstr : StringTable → List ℕ → Option (TString × StringTable)
newlstr tb str =
    let h = sip_hash tb.key str in
    let i = lmod h tb.size in
    elim (search_chain (get_or tb.hash i []) str) [
      | some r ↦ some (r.0, record tb { hash = set tb.hash i r.1 })
      | none ↦ new_lstr tb str h
    ]
