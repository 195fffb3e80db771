-- ===== src/Strings/SipHash.antt =====
-- `SipHash` of src/lstring.c in its 32-bit form (HalfSipHash-1-3, without FullSipHash), and the key
-- that `SipHashSetKey` sets.
pub mod Words
use lunacy.Base.{
  ℕ, ◌+◌, ◌-◌, List, [], ◌∷◌, bit_and, bit_or, bit_xor, u32, ◌<<<◌, add32, rotl32, leb, ◌==◌,
  if◌then◌else◌, length,
}

pub record SipKey : Type 0 where
  pub sip_key1 : ℕ
  pub sip_key2 : ℕ

unfoldable pub default_key : SipKey
default_key = record { sip_key1 = 0xded6cbc7; sip_key2 = 0x2f7eeb4f }

unfoldable pub sip_hash_set_key : ℕ → ℕ → SipKey
sip_hash_set_key a b = record { sip_key1 = a; sip_key2 = b }

pub record SipState : Type 0 where
  pub v0 : ℕ
  pub v1 : ℕ
  pub v2 : ℕ
  pub v3 : ℕ

unfoldable pub start : SipKey → SipState
start key = record {
  v0 = key.sip_key1;
  v1 = key.sip_key2;
  v2 = bit_xor key.sip_key1 0x6c796765;
  v3 = bit_xor key.sip_key2 0x74656462;
}

-- One round, its assignments in the order of the source.
unfoldable pub sip_round : SipState → SipState
sip_round s =
    let a0 = add32 s.v0 s.v1 in
    let a1 = bit_xor (rotl32 s.v1 5) a0 in
    let b0 = rotl32 a0 16 in
    let a2 = add32 s.v2 s.v3 in
    let a3 = bit_xor (rotl32 s.v3 8) a2 in
    let c0 = add32 b0 a3 in
    let b3 = bit_xor (rotl32 a3 7) c0 in
    let b2 = add32 a2 a1 in
    let b1 = bit_xor (rotl32 a1 13) b2 in record { v0 = c0; v1 = b1; v2 = rotl32 b2 16; v3 = b3 }

-- The body of the inner loop: a word of the message goes in.
unfoldable pub absorb : SipState → ℕ → SipState
absorb s m =
    let t = sip_round (record s { v3 = bit_xor s.v3 m }) in record t { v0 = bit_xor t.v0 m }

-- `(str[offset] & 0xff) << shift` and `(l & 0xff) << 24`.
abbrev pub byte_at : ℕ → ℕ → ℕ
byte_at c shift = bit_and c 0xff <<< shift

-- The end of the text, `offset == l`. A word that is still full would go in by itself.
unfoldable pub last_word : ℕ → ℕ → ℕ → SipState → SipState
last_word l shift m s =
    if shift == 32 then absorb (absorb s m) (byte_at l 24) else absorb s (bit_or m (byte_at l 24))

-- The outer loop over the unread text: `m` is the word under construction.
unfoldable pub sip_loop : ℕ → ℕ → ℕ → List ℕ → SipState → SipState
sip_loop l shift m [] s = last_word l shift m s
sip_loop l shift m (c ∷ text) s =
    let m' = bit_or m (byte_at c shift) in
    let full = leb 32 (shift + 8) in
    sip_loop l (if full then 0 else shift + 8) (if full then 0 else m') text
      (if full then absorb s m' else s)

unfoldable pub sip_end : SipState → ℕ
sip_end s =
    let t = sip_round (sip_round (sip_round (record s { v2 = bit_xor s.v2 255 }))) in
    bit_xor t.v1 t.v3

unfoldable pub sip_hash : SipKey → List ℕ → ℕ
sip_hash key text = sip_end (sip_loop (length text) 0 0 text (start key))
