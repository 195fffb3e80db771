-- ===== src/Opcode/Modes.antt =====
-- The instruction set: the opcodes of src/lopcodes.h with their numbers, and the property table of
-- src/lopcodes.c with the macros that read it.
use lunacy.Base.{
  ℕ, zero, suc, ◌+◌, ◌≡◌, refl, List, [], ◌∷◌, Option, none, some, Bool, true, false, not, ◌==◌,
  bit_and, bit_or, ◌<<<◌, ◌>>>◌, get_or, length,
}

pub data OpMode : Type 0 where
  iabc iabx iasbx : OpMode

pub data OpArgMask : Type 0 where
  op_arg_n op_arg_u op_arg_r op_arg_k : OpArgMask

pub data OpCode : Type 0 where
  op_move op_loadk op_loadbool op_loadnil op_getupval : OpCode
  op_getglobal op_gettable : OpCode
  op_setglobal op_setupval op_settable : OpCode
  op_newtable : OpCode
  op_self : OpCode
  op_add op_sub op_mul op_div op_mod op_pow op_unm op_not op_len : OpCode
  op_concat : OpCode
  op_jmp : OpCode
  op_eq op_lt op_le : OpCode
  op_test op_testset : OpCode
  op_call op_tailcall op_return : OpCode
  op_forloop op_forprep : OpCode
  op_tforloop op_setlist : OpCode
  op_close op_closure : OpCode
  op_vararg : OpCode

-- The enum's numbers.
abbrev pub opcode_number : OpCode → ℕ
opcode_number op_move = 0
opcode_number op_loadk = 1
opcode_number op_loadbool = 2
opcode_number op_loadnil = 3
opcode_number op_getupval = 4
opcode_number op_getglobal = 5
opcode_number op_gettable = 6
opcode_number op_setglobal = 7
opcode_number op_setupval = 8
opcode_number op_settable = 9
opcode_number op_newtable = 10
opcode_number op_self = 11
opcode_number op_add = 12
opcode_number op_sub = 13
opcode_number op_mul = 14
opcode_number op_div = 15
opcode_number op_mod = 16
opcode_number op_pow = 17
opcode_number op_unm = 18
opcode_number op_not = 19
opcode_number op_len = 20
opcode_number op_concat = 21
opcode_number op_jmp = 22
opcode_number op_eq = 23
opcode_number op_lt = 24
opcode_number op_le = 25
opcode_number op_test = 26
opcode_number op_testset = 27
opcode_number op_call = 28
opcode_number op_tailcall = 29
opcode_number op_return = 30
opcode_number op_forloop = 31
opcode_number op_forprep = 32
opcode_number op_tforloop = 33
opcode_number op_setlist = 34
opcode_number op_close = 35
opcode_number op_closure = 36
opcode_number op_vararg = 37

-- The opcodes in the order of the enum.
abbrev pub all_opcodes : List OpCode
all_opcodes =
    op_move ∷ op_loadk ∷ op_loadbool ∷ op_loadnil ∷ op_getupval ∷ op_getglobal ∷ op_gettable
    ∷ op_setglobal ∷ op_setupval ∷ op_settable ∷ op_newtable ∷ op_self ∷ op_add ∷ op_sub ∷ op_mul
    ∷ op_div ∷ op_mod ∷ op_pow ∷ op_unm ∷ op_not ∷ op_len ∷ op_concat ∷ op_jmp ∷ op_eq ∷ op_lt
    ∷ op_le ∷ op_test ∷ op_testset ∷ op_call ∷ op_tailcall ∷ op_return ∷ op_forloop ∷ op_forprep
    ∷ op_tforloop ∷ op_setlist ∷ op_close ∷ op_closure ∷ op_vararg ∷ []

abbrev pub num_opcodes : ℕ
num_opcodes = opcode_number op_vararg + 1

abbrev pub arg_mask_number : OpArgMask → ℕ
arg_mask_number op_arg_n = 0
arg_mask_number op_arg_u = 1
arg_mask_number op_arg_r = 2
arg_mask_number op_arg_k = 3

abbrev pub op_mode_number : OpMode → ℕ
op_mode_number iabc = 0
op_mode_number iabx = 1
op_mode_number iasbx = 2

-- The casts from two bits back to the enums, which number their values from 0.
abbrev pub arg_mask_of : ℕ → OpArgMask
arg_mask_of zero = op_arg_n
arg_mask_of (suc zero) = op_arg_u
arg_mask_of (suc (suc zero)) = op_arg_r
arg_mask_of (suc (suc (suc n))) = op_arg_k

abbrev pub op_mode_of : ℕ → Option OpMode
op_mode_of zero = some iabc
op_mode_of (suc zero) = some iabx
op_mode_of (suc (suc zero)) = some iasbx
op_mode_of (suc (suc (suc n))) = none

-- The macro `opmode`: the five properties of an instruction in one byte.
unfoldable pub opmode : ℕ → ℕ → OpArgMask → OpArgMask → OpMode → ℕ
opmode t a b c m =
    bit_or
      (bit_or (bit_or (bit_or (t <<< 7) (a <<< 6)) (arg_mask_number b <<< 4))
        (arg_mask_number c <<< 2))
      (op_mode_number m)

unfoldable pub opmodes : List ℕ
unfolding opmode
opmodes =
    opmode 0 1 op_arg_r op_arg_n iabc
    ∷ opmode 0 1 op_arg_k op_arg_n iabx
    ∷ opmode 0 1 op_arg_u op_arg_u iabc
    ∷ opmode 0 1 op_arg_r op_arg_n iabc
    ∷ opmode 0 1 op_arg_u op_arg_n iabc
    ∷ opmode 0 1 op_arg_k op_arg_n iabx
    ∷ opmode 0 1 op_arg_r op_arg_k iabc
    ∷ opmode 0 0 op_arg_k op_arg_n iabx
    ∷ opmode 0 0 op_arg_u op_arg_n iabc
    ∷ opmode 0 0 op_arg_k op_arg_k iabc
    ∷ opmode 0 1 op_arg_u op_arg_u iabc
    ∷ opmode 0 1 op_arg_r op_arg_k iabc
    ∷ opmode 0 1 op_arg_k op_arg_k iabc
    ∷ opmode 0 1 op_arg_k op_arg_k iabc
    ∷ opmode 0 1 op_arg_k op_arg_k iabc
    ∷ opmode 0 1 op_arg_k op_arg_k iabc
    ∷ opmode 0 1 op_arg_k op_arg_k iabc
    ∷ opmode 0 1 op_arg_k op_arg_k iabc
    ∷ opmode 0 1 op_arg_r op_arg_n iabc
    ∷ opmode 0 1 op_arg_r op_arg_n iabc
    ∷ opmode 0 1 op_arg_r op_arg_n iabc
    ∷ opmode 0 1 op_arg_r op_arg_r iabc
    ∷ opmode 0 0 op_arg_r op_arg_n iasbx
    ∷ opmode 1 0 op_arg_k op_arg_k iabc
    ∷ opmode 1 0 op_arg_k op_arg_k iabc
    ∷ opmode 1 0 op_arg_k op_arg_k iabc
    ∷ opmode 1 1 op_arg_r op_arg_u iabc
    ∷ opmode 1 1 op_arg_r op_arg_u iabc
    ∷ opmode 0 1 op_arg_u op_arg_u iabc
    ∷ opmode 0 1 op_arg_u op_arg_u iabc
    ∷ opmode 0 0 op_arg_u op_arg_n iabc
    ∷ opmode 0 1 op_arg_r op_arg_n iasbx
    ∷ opmode 0 1 op_arg_r op_arg_n iasbx
    ∷ opmode 1 0 op_arg_n op_arg_u iabc
    ∷ opmode 0 0 op_arg_u op_arg_u iabc
    ∷ opmode 0 0 op_arg_n op_arg_n iabc
    ∷ opmode 0 1 op_arg_u op_arg_n iabx
    ∷ opmode 0 1 op_arg_u op_arg_n iabc
    ∷ []

-- `luaP_opmodes[m]`, for an opcode number in range.
abbrev pub opmode_byte : ℕ → ℕ
opmode_byte m = get_or opmodes m 0

unfoldable pub get_op_mode : ℕ → Option OpMode
get_op_mode m = op_mode_of (bit_and (opmode_byte m) 3)

unfoldable pub get_b_mode : ℕ → OpArgMask
get_b_mode m = arg_mask_of (bit_and (opmode_byte m >>> 4) 3)

unfoldable pub get_c_mode : ℕ → OpArgMask
get_c_mode m = arg_mask_of (bit_and (opmode_byte m >>> 2) 3)

unfoldable pub test_a_mode : ℕ → Bool
test_a_mode m = not (bit_and (opmode_byte m) (1 <<< 6) == 0)

unfoldable pub test_t_mode : ℕ → Bool
test_t_mode m = not (bit_and (opmode_byte m) (1 <<< 7) == 0)

-- By the comments of the enum, the instructions that a jump follows, since they are a test and may
-- skip it.
abbrev pub is_test : OpCode → Bool
is_test op_eq = true
is_test op_lt = true
is_test op_le = true
is_test op_test = true
is_test op_testset = true
is_test op_tforloop = true
is_test _ = false

-- The table has one byte for each opcode.
length-opmodes : length opmodes ≡ num_opcodes
unfolding opmodes
length-opmodes = refl
