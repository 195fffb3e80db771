-- ===== src/Opcode.antt =====
-- src/lopcodes.h: the layout of a virtual-machine instruction, and the macros that read and write
-- its fields. An `Instruction` is a number below 2 ^ 32.
pub mod Modes
pub mod Fields
use lunacy.Base.{ℕ, ◌+◌, ◌-◌, ◌^◌, ◌/◌, ◌%◌, bit_and, bit_or, ◌<<<◌, ◌>>>◌, not32, u32}
use lunacy.Base.{◌==◌, Bool, not}
use lunacy.Base.Int.{ℤ, pos, pos_part, neg_part, ◌-ℤ◌}

abbrev pub size_c : ℕ
size_c = 9

abbrev pub size_b : ℕ
size_b = 9

abbrev pub size_bx : ℕ
size_bx = size_c + size_b

abbrev pub size_a : ℕ
size_a = 8

abbrev pub size_op : ℕ
size_op = 6

abbrev pub pos_op : ℕ
pos_op = 0

abbrev pub pos_a : ℕ
pos_a = pos_op + size_op

abbrev pub pos_c : ℕ
pos_c = pos_a + size_a

abbrev pub pos_b : ℕ
pos_b = pos_c + size_c

abbrev pub pos_bx : ℕ
pos_bx = pos_c

-- The limits of the arguments: `(1 << SIZE) - 1`, and half of it for the signed argument.
abbrev pub maxarg_bx : ℕ
maxarg_bx = (1 <<< size_bx) - 1

abbrev pub maxarg_sbx : ℕ
maxarg_sbx = maxarg_bx >>> 1

abbrev pub maxarg_a : ℕ
maxarg_a = (1 <<< size_a) - 1

-- `n` one bits at position `p`, and its complement.
abbrev pub mask1 : ℕ → ℕ → ℕ
mask1 n p = not32 (not32 0 <<< n) <<< p

abbrev pub mask0 : ℕ → ℕ → ℕ
mask0 n p = not32 (mask1 n p)

unfoldable pub get_opcode : ℕ → ℕ
get_opcode i = bit_and (i >>> pos_op) (mask1 size_op 0)

unfoldable pub set_opcode : ℕ → ℕ → ℕ
set_opcode i o =
    bit_or (bit_and i (mask0 size_op pos_op)) (bit_and (o <<< pos_op) (mask1 size_op pos_op))

unfoldable pub getarg_a : ℕ → ℕ
getarg_a i = bit_and (i >>> pos_a) (mask1 size_a 0)

unfoldable pub setarg_a : ℕ → ℕ → ℕ
setarg_a i u = bit_or (bit_and i (mask0 size_a pos_a)) (bit_and (u <<< pos_a) (mask1 size_a pos_a))

unfoldable pub getarg_b : ℕ → ℕ
getarg_b i = bit_and (i >>> pos_b) (mask1 size_b 0)

unfoldable pub setarg_b : ℕ → ℕ → ℕ
setarg_b i b = bit_or (bit_and i (mask0 size_b pos_b)) (bit_and (b <<< pos_b) (mask1 size_b pos_b))

unfoldable pub getarg_c : ℕ → ℕ
getarg_c i = bit_and (i >>> pos_c) (mask1 size_c 0)

unfoldable pub setarg_c : ℕ → ℕ → ℕ
setarg_c i b = bit_or (bit_and i (mask0 size_c pos_c)) (bit_and (b <<< pos_c) (mask1 size_c pos_c))

unfoldable pub getarg_bx : ℕ → ℕ
getarg_bx i = bit_and (i >>> pos_bx) (mask1 size_bx 0)

unfoldable pub setarg_bx : ℕ → ℕ → ℕ
setarg_bx i b =
    bit_or (bit_and i (mask0 size_bx pos_bx)) (bit_and (b <<< pos_bx) (mask1 size_bx pos_bx))

-- The signed argument: a C `int`, in excess `maxarg_sbx`.
unfoldable pub getarg_sbx : ℕ → ℤ
unfolding getarg_bx
getarg_sbx i = pos (getarg_bx i) -ℤ pos maxarg_sbx

-- `cast(unsigned int, b + MAXARG_sBx)`.
abbrev pub biased : ℤ → ℕ
biased b = u32 (pos_part b + maxarg_sbx + 2 ^ 32 - neg_part b)

unfoldable pub setarg_sbx : ℕ → ℤ → ℕ
unfolding setarg_bx
setarg_sbx i b = setarg_bx i (biased b)

unfoldable pub create_abc : ℕ → ℕ → ℕ → ℕ → ℕ
create_abc o a b c =
    bit_or (bit_or (bit_or (o <<< pos_op) (a <<< pos_a)) (b <<< pos_b)) (c <<< pos_c)

unfoldable pub create_abx : ℕ → ℕ → ℕ → ℕ
create_abx o a bc = bit_or (bit_or (o <<< pos_op) (a <<< pos_a)) (bc <<< pos_bx)

-- RK operands: one bit tells a constant from a register.
abbrev pub bitrk : ℕ
bitrk = 1 <<< (size_b - 1)

unfoldable pub isk : ℕ → Bool
isk x = not (bit_and x bitrk == 0)

unfoldable pub indexk : ℕ → ℕ
indexk r = bit_and r (not32 bitrk)

abbrev pub maxindexrk : ℕ
maxindexrk = bitrk - 1

unfoldable pub rkask : ℕ → ℕ
rkask x = bit_or x bitrk

abbrev pub no_reg : ℕ
no_reg = maxarg_a
