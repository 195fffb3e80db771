-- ===== src/Strings/SipHash/Words.antt =====
-- The loop of `SipHash` (src/lstring.c) and the words of the message.
use lunacy.Base.{
  ℕ, ◌+◌, ◌*◌, ◌%◌, ◌^◌, ◌<◌, ◌≡◌, List, [], ◌∷◌, bit_and, bit_or, arith, length, All, ap,
}
use lunacy.Base.Bits.{bit_and_mask, bit_or_above}
use lunacy.Strings.SipHash.{
  SipKey, SipState, start, absorb, byte_at, last_word, sip_loop, sip_end, sip_hash,
}

-- The words of a text that ends in a word with the length `l` in its top byte.
abbrev pub words : ℕ → List ℕ → List ℕ
words l (a ∷ b ∷ c ∷ d ∷ text) = (a + 2 ^ 8 * b + 2 ^ 16 * c + 2 ^ 24 * d) ∷ words l text
words l (a ∷ b ∷ c ∷ []) = (a + 2 ^ 8 * b + 2 ^ 16 * c + 2 ^ 24 * (l % 2 ^ 8)) ∷ []
words l (a ∷ b ∷ []) = (a + 2 ^ 8 * b + 2 ^ 24 * (l % 2 ^ 8)) ∷ []
words l (a ∷ []) = (a + 2 ^ 24 * (l % 2 ^ 8)) ∷ []
words l [] = 2 ^ 24 * (l % 2 ^ 8) ∷ []

abbrev pub absorb_all : SipState → List ℕ → SipState
absorb_all s [] = s
absorb_all s (m ∷ ms) = absorb_all (absorb s m) ms

byte_lem : (x : ℕ) → x < 2 ^ 8 → bit_and x 0xff ≡ x
byte_lem x h = omega (arith, bit_and_mask 8 x)

put0 : (x : ℕ) → x < 2 ^ 8 → bit_or 0 (byte_at x 0) ≡ x
put0 x h = ground (arith, byte_lem x h, bit_or_above 0 x 0 (omega arith))

put8 : (m x : ℕ) → m < 2 ^ 8 → x < 2 ^ 8 → bit_or m (byte_at x 8) ≡ m + 2 ^ 8 * x
put8 m x hm h = ground (arith, byte_lem x h, bit_or_above 8 x m hm)

put16 : (m x : ℕ) → m < 2 ^ 16 → x < 2 ^ 8 → bit_or m (byte_at x 16) ≡ m + 2 ^ 16 * x
put16 m x hm h = ground (arith, byte_lem x h, bit_or_above 16 x m hm)

put24 : (m x : ℕ) → m < 2 ^ 24 → bit_or m (byte_at x 24) ≡ m + 2 ^ 24 * (x % 2 ^ 8)
put24 m x hm = ground (arith, bit_and_mask 8 x, bit_or_above 24 (x % 2 ^ 8) m hm)

loop_words :
    (l : ℕ) (text : List ℕ) (s : SipState)
    → All (λ c. c < 2 ^ 8) text
    → sip_loop l 0 0 text s ≡ absorb_all s (words l text)
unfolding sip_loop last_word
loop_words l [] s h = rw (put24 0 l (omega arith)) (ap (absorb s) (omega arith))
loop_words l (a ∷ []) s (ha, h) = rw (put0 a ha, put24 a l (omega arith))
loop_words l (a ∷ b ∷ []) s (ha, (hb, h)) =
    rw (put0 a ha, put8 a b ha hb, put24 (a + 2 ^ 8 * b) l (omega arith))
loop_words l (a ∷ b ∷ c ∷ []) s (ha, (hb, (hc, h))) = rw (
  put0 a ha,
  put8 a b ha hb,
  put16 (a + 2 ^ 8 * b) c (omega arith) hc,
  put24 (a + 2 ^ 8 * b + 2 ^ 16 * c) l (omega arith),
)
loop_words l (a ∷ b ∷ c ∷ d ∷ text) s (ha, (hb, (hc, (hd, h)))) =
    let m = a + 2 ^ 8 * b + 2 ^ 16 * c in
    let last : bit_or m (byte_at d 24) ≡ m + 2 ^ 24 * d = omega (arith, put24 m d (omega arith)) in
    rw (put0 a ha, put8 a b ha hb, put16 (a + 2 ^ 8 * b) c (omega arith) hc, last)
      (loop_words l text (absorb s (m + 2 ^ 24 * d)) h)

-- For a text of bytes, the hash is that of the words of the message: four bytes each, the lowest
-- first, and in the last one the bytes that are left below the length modulo 256. Each word goes in
-- once, in order, between the start and the three closing rounds.
pub sip_hash-words :
    (key : SipKey) (text : List ℕ)
    → All (λ c. c < 2 ^ 8) text
    → sip_hash key text ≡ sip_end (absorb_all (start key) (words (length text) text))
unfolding sip_hash
sip_hash-words key text h = ap sip_end (loop_words (length text) text (start key) h)
