-- ===== src/Verifier.antt =====
-- src/ldebug.c: the symbolic execution of a function's code (`symbexec`), which checks bytecode that
-- was loaded (`luaG_checkcode`) and traces registers. A failed check returns 0; here the loop ends with
-- `failed_check`. `a`, `b`, `c` are the operands of the instruction at `pc`, `sb` its jump.
pub mod Step
pub mod Loop
pub mod Rounds
pub mod Visits
pub mod Operands
pub mod Flow
pub mod Control
pub mod Sound
use lunacy.Base.{
  ℕ, zero, suc, ◌+◌, ◌-◌, Bool, true, false, not, ◌&&◌, ◌||◌, List, [], ◌∷◌, Option, none, some,
  ltb, leb, ◌==◌, if◌then◌else◌, length, get_or, get_elem?, bit_and,
}
use lunacy.Base.Int.{ℤ, pos, negsuc, ◌+ℤ◌}
use lunacy.Opcode.{get_opcode, getarg_b, getarg_c, isk, indexk}
use lunacy.Opcode.Modes.{
  OpCode, OpArgMask, op_move, op_getupval, op_call, op_tailcall, op_return, op_setlist, op_jmp,
  op_arg_n, op_arg_u, op_arg_r, op_arg_k, opcode_number, all_opcodes,
}
use lunacy.Chunk.{Constant, Fields, Proto, Protos, string, proto, no_protos, one_more}

-- `MAXSTACK` of src/llimits.h, and the bits of `is_vararg` of src/lobject.h.
abbrev pub maxstack : ℕ
maxstack = 250

abbrev pub vararg_hasarg : ℕ
vararg_hasarg = 1

abbrev pub vararg_isvararg : ℕ
vararg_isvararg = 2

abbrev pub vararg_needsarg : ℕ
vararg_needsarg = 4

-- The opcode with a number, if it is below NUM_OPCODES.
unfoldable pub opcode_of : ℕ → Option OpCode
opcode_of n = get_elem? all_opcodes n

-- `pt->code[pc]`, whose uses are in range.
abbrev pub code_at : Fields → ℕ → ℕ
code_at f pc = get_or f.code pc 0

abbrev pub has_opcode : ℕ → OpCode → Bool
has_opcode i o = get_opcode i == opcode_number o

abbrev pub has_flag : Fields → ℕ → Bool
has_flag f flag = not (bit_and f.is_vararg flag == 0)

unfoldable pub precheck : Fields → Bool
precheck f =
    leb f.maxstacksize maxstack
    && (leb (f.numparams + bit_and f.is_vararg vararg_hasarg) f.maxstacksize
        && ((not (has_flag f vararg_needsarg) || has_flag f vararg_hasarg)
            && (leb (length f.upvalues) f.nups
                && ((length f.lineinfo == length f.code || length f.lineinfo == 0)
                    && (ltb 0 (length f.code)
                        && has_opcode (code_at f (length f.code - 1)) op_return)))))

-- `luaG_checkopenop`
unfoldable pub checkopenop : ℕ → Bool
checkopenop i = elim (opcode_of (get_opcode i)) [
  | some op_call ↦ getarg_b i == 0
  | some op_tailcall ↦ getarg_b i == 0
  | some op_return ↦ getarg_b i == 0
  | some op_setlist ↦ getarg_b i == 0
  | _ ↦ false
]

abbrev pub checkreg : Fields → ℕ → Bool
checkreg f reg = ltb reg f.maxstacksize

unfoldable pub check_arg_mode : Fields → ℕ → OpArgMask → Bool
check_arg_mode f r op_arg_n = r == 0
check_arg_mode f r op_arg_u = true
check_arg_mode f r op_arg_r = checkreg f r
check_arg_mode f r op_arg_k = if isk r then ltb (indexk r) (length f.k) else checkreg f r

-- `pc + 1 + b`, if it is not negative.
abbrev pub jump_target : ℕ → ℤ → Option ℕ
jump_target pc sb = elim (pos (pc + 1) +ℤ sb) [ pos d ↦ some d | negsuc n ↦ none ]

-- An instruction that looks like a SETLIST with its count in the next word.
abbrev pub is_open_setlist : ℕ → Bool
is_open_setlist d = has_opcode d op_setlist && getarg_c d == 0

-- The loop over `j`: the number of such words right before `dest`.
unfoldable pub setlist_run : Fields → ℕ → ℕ
setlist_run f zero = 0
setlist_run f (suc k) =
    let rest = setlist_run f k in if is_open_setlist (code_at f k) then suc rest else 0

-- The check of a jump: in the code, and not to the count of a SETLIST.
unfoldable pub check_jump : Fields → ℕ → ℤ → Bool
check_jump f pc sb = elim (jump_target pc sb) [
  | none ↦ false
  | some dest ↦ ltb dest (length f.code) && bit_and (setlist_run f dest) 1 == 0
]

-- `ttisstring(&pt->k[b])`
abbrev pub is_string : Option Constant → Bool
is_string (some (string s)) = true
is_string _ = false

-- `pt->p[b]->nups`
abbrev pub proto_nups : Protos → ℕ → Option ℕ
proto_nups no_protos b = none
proto_nups (one_more (proto f fs) ps) zero = some f.nups
proto_nups (one_more p ps) (suc b) = proto_nups ps b

-- The words after a CLOSURE: `count` of them from `pc` on, each a GETUPVAL or a MOVE.
unfoldable pub check_upvalues : Fields → ℕ → ℕ → Bool
check_upvalues f zero pc = true
check_upvalues f (suc count) pc =
    let rest = check_upvalues f count (pc + 1) in
    (has_opcode (code_at f pc) op_getupval || has_opcode (code_at f pc) op_move) && rest
