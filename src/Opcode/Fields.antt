-- ===== src/Opcode/Fields.antt =====
-- Reading and writing instruction fields, as arithmetic on the word (src/lopcodes.h).
use native.Mathlib.Nat.{one-le-pow}
use lunacy.Base.{ℕ, ◌+◌, ◌-◌, ◌*◌, ◌/◌, ◌%◌, ◌^◌, ◌≤◌, ◌<◌, ◌≡◌, arith, bit_and, bit_or}
use lunacy.Base.{true, false, ◌==◌, if◌then◌else◌}
use lunacy.Base.Int.{ℤ, pos, negsuc, ◌≤ℤ◌}
use lunacy.Base.Bits.{
  bit_and_fields, bit_or_fields, bit_and_mask, bit_and-zero, bit_or-zero, zero-bit_or,
}
use lunacy.Opcode.{
  get_opcode, set_opcode, getarg_a, setarg_a, getarg_b, setarg_b, getarg_c, setarg_c, getarg_bx,
  setarg_bx, getarg_sbx, setarg_sbx, create_abc, create_abx, isk, indexk, rkask, maxindexrk, biased,
}

-- A word `i` keeps its bits from `w` up and below `p`.
keep :
    (p w h i : ℕ)
    → 2 ^ p ≤ 2 ^ w
    → i < 2 ^ h * 2 ^ w
    → bit_and i ((2 ^ h - 1) * 2 ^ w + (2 ^ p - 1)) ≡ i / 2 ^ w * 2 ^ w + i % 2 ^ w % 2 ^ p
keep p w h i le fits =
    let room = one-le-pow w 2 in
    let room' = one-le-pow p 2 in
    let split =
      bit_and_fields w (i / 2 ^ w) (i % 2 ^ w) (2 ^ h - 1) (2 ^ p - 1) (omega arith)
        (omega arith) in
    let high : i / 2 ^ w < 2 ^ h = grind arith in
    grind (arith, split, bit_and_mask h (i / 2 ^ w), bit_and_mask p (i % 2 ^ w))

pick : (p n u : ℕ) → u < 2 ^ n → bit_and (u * 2 ^ p) ((2 ^ n - 1) * 2 ^ p) ≡ u * 2 ^ p
pick p n u h =
    let split =
      bit_and_fields p u 0 (2 ^ n - 1) 0 (omega (arith, one-le-pow p 2))
        (omega (arith, one-le-pow p 2)) in
    let low : u % 2 ^ n ≡ u = grind arith in ground (arith, split, bit_and_mask n u)

join :
    (p w hi lo u : ℕ)
    → lo < 2 ^ p
    → 2 ^ p ≤ 2 ^ w
    → u * 2 ^ p < 2 ^ w
    → bit_or (hi * 2 ^ w + lo) (u * 2 ^ p) ≡ hi * 2 ^ w + u * 2 ^ p + lo
join p w hi lo u h le fits =
    let room = one-le-pow p 2 in
    let outer = bit_or_fields w hi lo 0 (u * 2 ^ p) (omega arith) fits in
    let inner = bit_or_fields p 0 lo u 0 h (omega arith) in
    ground (arith, outer, inner, bit_or-zero hi, zero-bit_or u, bit_or-zero lo)

getters :
    (i : ℕ)
    → (get_opcode i ≡ i % 2 ^ 6)
      × (getarg_a i ≡ i / 2 ^ 6 % 2 ^ 8)
      × (getarg_c i ≡ i / 2 ^ 14 % 2 ^ 9)
      × (getarg_b i ≡ i / 2 ^ 23 % 2 ^ 9)
      × (getarg_bx i ≡ i / 2 ^ 14 % 2 ^ 18)
unfolding get_opcode getarg_a getarg_b getarg_c getarg_bx
getters i = (
  ground (arith, bit_and_mask 6 (i / 2 ^ 0)),
  bit_and_mask 8 (i / 2 ^ 6),
  bit_and_mask 9 (i / 2 ^ 14),
  bit_and_mask 9 (i / 2 ^ 23),
  bit_and_mask 18 (i / 2 ^ 14),
)

set_opcode_sum : (i o : ℕ) → i < 2 ^ 32 → o < 2 ^ 6 → set_opcode i o ≡ i / 2 ^ 6 * 2 ^ 6 + o
unfolding set_opcode
set_opcode_sum i o h k = ground (
  arith,
  keep 0 6 26 i (omega arith) h,
  pick 0 6 o k,
  join 0 6 (i / 2 ^ 6) 0 o (omega arith) (omega arith) (omega arith),
)

setarg_a_sum :
    (i u : ℕ) → i < 2 ^ 32 → u < 2 ^ 8 → setarg_a i u ≡ i / 2 ^ 14 * 2 ^ 14 + u * 2 ^ 6 + i % 2 ^ 6
unfolding setarg_a
setarg_a_sum i u h k = ground (
  arith,
  keep 6 14 18 i (omega arith) h,
  pick 6 8 u k,
  join 6 14 (i / 2 ^ 14) (i % 2 ^ 14 % 2 ^ 6) u (omega arith) (omega arith) (omega arith),
)

setarg_c_sum :
    (i u : ℕ)
    → i < 2 ^ 32
    → u < 2 ^ 9
    → setarg_c i u ≡ i / 2 ^ 23 * 2 ^ 23 + u * 2 ^ 14 + i % 2 ^ 14
unfolding setarg_c
setarg_c_sum i u h k = ground (
  arith,
  keep 14 23 9 i (omega arith) h,
  pick 14 9 u k,
  join 14 23 (i / 2 ^ 23) (i % 2 ^ 23 % 2 ^ 14) u (omega arith) (omega arith) (omega arith),
)

setarg_b_sum : (i u : ℕ) → i < 2 ^ 32 → u < 2 ^ 9 → setarg_b i u ≡ u * 2 ^ 23 + i % 2 ^ 23
unfolding setarg_b
setarg_b_sum i u h k = ground (
  arith,
  keep 23 32 0 i (omega arith) (omega arith),
  pick 23 9 u k,
  join 23 32 0 (i % 2 ^ 32 % 2 ^ 23) u (omega arith) (omega arith) (omega arith),
)

setarg_bx_sum : (i u : ℕ) → i < 2 ^ 32 → u < 2 ^ 18 → setarg_bx i u ≡ u * 2 ^ 14 + i % 2 ^ 14
unfolding setarg_bx
setarg_bx_sum i u h k = ground (
  arith,
  keep 14 32 0 i (omega arith) (omega arith),
  pick 14 18 u k,
  join 14 32 0 (i % 2 ^ 32 % 2 ^ 14) u (omega arith) (omega arith) (omega arith),
)

create_abx_sum :
    (o a x : ℕ) → o < 2 ^ 6 → a < 2 ^ 8 → x < 2 ^ 18 → create_abx o a x ≡ x * 2 ^ 14 + a * 2 ^ 6 + o
unfolding create_abx
create_abx_sum o a x ho ha hx = ground (
  arith,
  join 6 14 0 o a ho (omega arith) (omega arith),
  join 14 32 0 (a * 2 ^ 6 + o) x (omega arith) (omega arith) (omega arith),
)

create_abc_sum :
    (o a b c : ℕ)
    → o < 2 ^ 6
    → a < 2 ^ 8
    → b < 2 ^ 9
    → c < 2 ^ 9
    → create_abc o a b c ≡ b * 2 ^ 23 + c * 2 ^ 14 + a * 2 ^ 6 + o
unfolding create_abc
create_abc_sum o a b c ho ha hb hc = ground (
  arith,
  join 6 14 0 o a ho (omega arith) (omega arith),
  join 23 32 0 (a * 2 ^ 6 + o) b (omega arith) (omega arith) (omega arith),
  join 14 23 b (a * 2 ^ 6 + o) c (omega arith) (omega arith) (omega arith),
)

-- An instruction built from fields that fit gives each of the four fields back.
pub create_abc-fields :
    (o a b c : ℕ)
    → o < 2 ^ 6
    → a < 2 ^ 8
    → b < 2 ^ 9
    → c < 2 ^ 9
    → let i = create_abc o a b c in
      (get_opcode i ≡ o) × (getarg_a i ≡ a) × (getarg_b i ≡ b) × (getarg_c i ≡ c)
create_abc-fields o a b c ho ha hb hc =
    omega (arith, getters (create_abc o a b c), create_abc_sum o a b c ho ha hb hc)

-- Every 32-bit word is the instruction built from its own fields, in the three-argument format and
-- in the two-argument one.
pub create-getters :
    (i : ℕ)
    → i < 2 ^ 32
    → (create_abc (get_opcode i) (getarg_a i) (getarg_b i) (getarg_c i) ≡ i)
      × (create_abx (get_opcode i) (getarg_a i) (getarg_bx i) ≡ i)
create-getters i h =
    let g = getters i in
    omega (
      arith,
      g,
      create_abc_sum (get_opcode i) (getarg_a i) (getarg_b i) (getarg_c i) (omega (arith, g))
          (omega (arith, g)) (omega (arith, g)) (omega (arith, g)),
      create_abx_sum (get_opcode i) (getarg_a i) (getarg_bx i) (omega (arith, g)) (omega (arith, g))
          (omega (arith, g)),
    )

-- The four fields of a word.
abbrev pub HasFields : ℕ → ℕ → ℕ → ℕ → ℕ → Type 0
HasFields i o a b c = (get_opcode i ≡ o) × (getarg_a i ≡ a) × (getarg_b i ≡ b) × (getarg_c i ≡ c)

-- Writing a value that fits into one field of a 32-bit word sets that field and leaves the three
-- others as they were, for the opcode and for the arguments A, B and C.
pub set-HasFields :
    (i o a b c : ℕ)
    → i < 2 ^ 32
    → o < 2 ^ 6
    → a < 2 ^ 8
    → b < 2 ^ 9
    → c < 2 ^ 9
    → HasFields (set_opcode i o) o (getarg_a i) (getarg_b i) (getarg_c i)
      × HasFields (setarg_a i a) (get_opcode i) a (getarg_b i) (getarg_c i)
      × HasFields (setarg_b i b) (get_opcode i) (getarg_a i) b (getarg_c i)
      × HasFields (setarg_c i c) (get_opcode i) (getarg_a i) (getarg_b i) c
set-HasFields i o a b c h ho ha hb hc =
    let g = getters i in
    (
      omega (arith, g, getters (set_opcode i o), set_opcode_sum i o h ho),
      omega (arith, g, getters (setarg_a i a), setarg_a_sum i a h ha),
      omega (arith, g, getters (setarg_b i b), setarg_b_sum i b h hb),
      omega (arith, g, getters (setarg_c i c), setarg_c_sum i c h hc),
    )

-- A jump offset in the range -131071 .. 131072 that is written into a 32-bit word is read back, and
-- the opcode and the argument A are as they were.
pub setarg_sbx-getarg_sbx :
    (i : ℕ) (b : ℤ)
    → i < 2 ^ 32
    → negsuc 131070 ≤ℤ b
    → b ≤ℤ pos 131072
    → (getarg_sbx (setarg_sbx i b) ≡ b)
      × (get_opcode (setarg_sbx i b) ≡ get_opcode i)
      × (getarg_a (setarg_sbx i b) ≡ getarg_a i)
unfolding getarg_sbx setarg_sbx
setarg_sbx-getarg_sbx i b h lo hi =
    let s = setarg_bx_sum i (biased b) h (ground arith) in
    let g = getters (setarg_bx i (biased b)) in
    (ground (arith, s, g), omega (arith, s, g, getters i), omega (arith, s, g, getters i))

rk_sum : (x : ℕ) → x < 2 ^ 8 → rkask x ≡ 2 ^ 8 + x
unfolding rkask
rk_sum x h = ground (arith, bit_or_fields 8 0 x 1 0 h (omega arith), zero-bit_or 1, bit_or-zero x)

isk_lem : (q r : ℕ) → q < 2 → r < 2 ^ 8 → isk (q * 2 ^ 8 + r) ≡ (if q == 1 then true else false)
unfolding isk
isk_lem q r h k =
    ground (arith, bit_and_fields 8 q r 1 0 k (omega arith), bit_and_mask 1 q, bit_and-zero r)

indexk_lem : (q r : ℕ) → q < 2 → r < 2 ^ 8 → indexk (q * 2 ^ 8 + r) ≡ r
unfolding indexk
indexk_lem q r h k = ground (
  arith,
  bit_and_fields 8 q r 0xfffffe 255 k (omega arith),
  bit_and_fields 1 0 q 0x7fffff 0 h (omega arith),
  bit_and_mask 8 r,
  bit_and-zero q,
)

-- A constant index up to `maxindexrk` coded as an RK operand is told to be a constant and gives its
-- index back, fits the nine bits of an argument, and no register number is taken for a constant.
pub rkask-isk-indexk :
    (x : ℕ)
    → x ≤ maxindexrk
    → (isk (rkask x) ≡ true) × (indexk (rkask x) ≡ x) × (rkask x < 2 ^ 9) × (isk x ≡ false)
rkask-isk-indexk x h = ground (
  arith,
  rk_sum x (omega arith),
  isk_lem 1 x (omega arith) (omega arith),
  indexk_lem 1 x (omega arith) (omega arith),
  isk_lem 0 x (omega arith) (omega arith),
)
