-- ===== src/Object.antt =====
-- src/lobject.c: the conversions of table sizes to and from one byte, the logarithm that sizes hash
-- parts, and the printable name of a chunk.
pub mod FloatByte
pub mod Log2
pub mod ChunkId
use mathlib.Core.Logic.{dite}
use native.Mathlib.Decide.{dec_le}
use lunacy.Base.{
  ℕ, zero, suc, ◌+◌, ◌-◌, ◌*◌, ◌/◌, ◌%◌, ◌^◌, ◌≤◌, ◌<◌, arith, List, [], ◌∷◌, ◌++◌, Bool, true,
  false, ltb, ◌==◌, ◌||◌, if◌then◌else◌, bit_and, bit_or, add32, ◌>>>◌, length, take, drop, get_or,
}
use lunacy.Base.Order.{Acc, lt_wf}
use lunacy.Base.Int.{ℤ, pos, negsuc, ◌+ℤ◌}

-- A mantissa and an exponent.
pub record Scaled : Type 0 where
  pub x : ℕ
  pub e : ℕ

abbrev pub half_up : ℕ → ℕ
half_up x = add32 x 1 >>> 1

pub half_smaller : (x : ℕ) → 16 ≤ x → half_up x < x
half_smaller x h = omega arith

pub shr_smaller : (x : ℕ) → 256 ≤ x → x >>> 8 < x
shr_smaller x h = omega arith

-- `while (x >= 16) { x = (x+1) >> 1; e++; }`
pub shrink : (x e : ℕ) → Acc ◌<◌ x → Scaled
shrink x e (Acc.intro _ smaller) =
    dite (dec_le 16 x) (λ h. shrink (half_up x) (e + 1) (smaller (half_up x) (half_smaller x h)))
      (λ _. record { x = x; e = e })

abbrev pub pack_byte : Scaled → ℕ
pack_byte s = if ltb s.x 8 then s.x else bit_or ((s.e + 1) * 2 ^ 3) (s.x - 8)

unfoldable pub int2fb : ℕ → ℕ
unfolding shrink lt_wf dec_le
int2fb x = pack_byte (shrink x 0 (lt_wf.apply x))

-- The shift is on `int`: at 2 ^ 31 and above it is undefined in C.
unfoldable pub fb2int : ℕ → ℕ
fb2int x = let e = bit_and (x >>> 3) 31 in if e == 0 then x else (bit_and x 7 + 8) * 2 ^ (e - 1)

unfoldable pub log_2 : List ℕ
log_2 =
    0 ∷ 1 ∷ 2 ∷ 2 ∷ 3 ∷ 3 ∷ 3 ∷ 3 ∷ 4 ∷ 4 ∷ 4 ∷ 4 ∷ 4 ∷ 4 ∷ 4 ∷ 4 ∷ 5 ∷ 5 ∷ 5 ∷ 5 ∷ 5 ∷ 5 ∷ 5 ∷ 5
    ∷ 5 ∷ 5 ∷ 5 ∷ 5 ∷ 5 ∷ 5 ∷ 5 ∷ 5 ∷ 6 ∷ 6 ∷ 6 ∷ 6 ∷ 6 ∷ 6 ∷ 6 ∷ 6 ∷ 6 ∷ 6 ∷ 6 ∷ 6 ∷ 6 ∷ 6 ∷ 6 ∷ 6
    ∷ 6 ∷ 6 ∷ 6 ∷ 6 ∷ 6 ∷ 6 ∷ 6 ∷ 6 ∷ 6 ∷ 6 ∷ 6 ∷ 6 ∷ 6 ∷ 6 ∷ 6 ∷ 6 ∷ 7 ∷ 7 ∷ 7 ∷ 7 ∷ 7 ∷ 7 ∷ 7 ∷ 7
    ∷ 7 ∷ 7 ∷ 7 ∷ 7 ∷ 7 ∷ 7 ∷ 7 ∷ 7 ∷ 7 ∷ 7 ∷ 7 ∷ 7 ∷ 7 ∷ 7 ∷ 7 ∷ 7 ∷ 7 ∷ 7 ∷ 7 ∷ 7 ∷ 7 ∷ 7 ∷ 7 ∷ 7
    ∷ 7 ∷ 7 ∷ 7 ∷ 7 ∷ 7 ∷ 7 ∷ 7 ∷ 7 ∷ 7 ∷ 7 ∷ 7 ∷ 7 ∷ 7 ∷ 7 ∷ 7 ∷ 7 ∷ 7 ∷ 7 ∷ 7 ∷ 7 ∷ 7 ∷ 7 ∷ 7 ∷ 7
    ∷ 7 ∷ 7 ∷ 7 ∷ 7 ∷ 7 ∷ 7 ∷ 7 ∷ 7 ∷ 8 ∷ 8 ∷ 8 ∷ 8 ∷ 8 ∷ 8 ∷ 8 ∷ 8 ∷ 8 ∷ 8 ∷ 8 ∷ 8 ∷ 8 ∷ 8 ∷ 8 ∷ 8
    ∷ 8 ∷ 8 ∷ 8 ∷ 8 ∷ 8 ∷ 8 ∷ 8 ∷ 8 ∷ 8 ∷ 8 ∷ 8 ∷ 8 ∷ 8 ∷ 8 ∷ 8 ∷ 8 ∷ 8 ∷ 8 ∷ 8 ∷ 8 ∷ 8 ∷ 8 ∷ 8 ∷ 8
    ∷ 8 ∷ 8 ∷ 8 ∷ 8 ∷ 8 ∷ 8 ∷ 8 ∷ 8 ∷ 8 ∷ 8 ∷ 8 ∷ 8 ∷ 8 ∷ 8 ∷ 8 ∷ 8 ∷ 8 ∷ 8 ∷ 8 ∷ 8 ∷ 8 ∷ 8 ∷ 8 ∷ 8
    ∷ 8 ∷ 8 ∷ 8 ∷ 8 ∷ 8 ∷ 8 ∷ 8 ∷ 8 ∷ 8 ∷ 8 ∷ 8 ∷ 8 ∷ 8 ∷ 8 ∷ 8 ∷ 8 ∷ 8 ∷ 8 ∷ 8 ∷ 8 ∷ 8 ∷ 8 ∷ 8 ∷ 8
    ∷ 8 ∷ 8 ∷ 8 ∷ 8 ∷ 8 ∷ 8 ∷ 8 ∷ 8 ∷ 8 ∷ 8 ∷ 8 ∷ 8 ∷ 8 ∷ 8 ∷ 8 ∷ 8 ∷ 8 ∷ 8 ∷ 8 ∷ 8 ∷ 8 ∷ 8 ∷ 8 ∷ 8
    ∷ 8 ∷ 8 ∷ 8 ∷ 8 ∷ 8 ∷ 8 ∷ 8 ∷ 8 ∷ 8 ∷ 8 ∷ 8 ∷ 8 ∷ 8 ∷ 8 ∷ 8 ∷ 8 ∷ []

-- `while (x >= 256) { l += 8; x >>= 8; }`, then the table.
unfoldable pub log2_loop : (x : ℕ) → ℤ → Acc ◌<◌ x → ℤ
log2_loop x l (Acc.intro _ smaller) =
    dite (dec_le 256 x)
      (λ h. log2_loop (x >>> 8) (l +ℤ pos 8) (smaller (x >>> 8) (shr_smaller x h)))
      (λ _. l +ℤ pos (get_or log_2 x 0))

unfoldable pub log2 : ℕ → ℤ
unfolding log2_loop log_2 lt_wf dec_le
log2 x = log2_loop x (negsuc 0) (lt_wf.apply x)

-- `ceillog2`, of src/lobject.h, for x at least 1.
unfoldable pub ceillog2 : ℕ → ℤ
ceillog2 x = log2 (x - 1) +ℤ pos 1

-- `strcspn(source, "\n\r")`
abbrev pub strcspn_newline : List ℕ → ℕ
strcspn_newline [] = 0
strcspn_newline (c ∷ s) = if c == 10 || c == 13 then 0 else suc (strcspn_newline s)

-- `size_t` subtraction.
abbrev pub size_sub : ℕ → ℕ → ℕ
size_sub a b = (a + 2 ^ 64 - b) % 2 ^ 64

abbrev pub dots : List ℕ
dots = b'.' ∷ b'.' ∷ b'.' ∷ []

-- `[string "`
abbrev pub string_open : List ℕ
string_open = b'[' ∷ b's' ∷ b't' ∷ b'r' ∷ b'i' ∷ b'n' ∷ b'g' ∷ b' ' ∷ 34 ∷ []

-- `"]`
abbrev pub string_close : List ℕ
string_close = 34 ∷ b']' ∷ []

-- The name after `@`, of which the last part is kept; `sizeof(" '...' ")` is 8.
abbrev pub file_id : List ℕ → ℕ → List ℕ
file_id name bufflen =
    let room = size_sub bufflen 8 in
    if ltb room (length name) then dots ++ drop (length name - room) name else name

-- The first line of a source text; `sizeof(" [string \"...\"] ")` is 17.
abbrev pub text_id : List ℕ → ℕ → List ℕ
text_id source bufflen =
    let line = strcspn_newline source in
    let room = size_sub bufflen 17 in
    let len = if ltb room line then room else line in
    string_open
    ++ ((if ltb len (length source) then take len source ++ dots else source) ++ string_close)

-- `source` and the result are C strings: the bytes before the ending 0.
unfoldable pub chunkid : List ℕ → ℕ → List ℕ
chunkid source bufflen =
    let c = get_or source 0 0 in
    if c == b'='
    then take (size_sub bufflen 1) (drop 1 source)
    else if c == b'@'
    then file_id (drop 1 source) bufflen
    else text_id source bufflen
