-- ===== src/Verifier/Step.antt =====
-- One round of the loop of `symbexec` (src/ldebug.c): the checks of the instruction at `pc`, the
-- position of the next one, and whether the register `reg` changes.
use lunacy.Base.{
  ℕ, ◌+◌, ◌-◌, Bool, true, false, not, ◌&&◌, ◌||◌, none, some, ltb, leb, ◌==◌, if◌then◌else◌,
  length, get_elem?,
}
use lunacy.Base.Int.{ℤ, pos}
use lunacy.Opcode.{getarg_a, getarg_b, getarg_c, getarg_bx, getarg_sbx, no_reg}
use lunacy.Opcode.Modes.{
  OpCode, OpArgMask, op_loadbool, op_loadnil, op_getupval, op_getglobal, op_setglobal, op_setupval,
  op_self, op_concat, op_jmp, op_call, op_tailcall, op_return, op_forloop, op_forprep, op_tforloop,
  op_setlist, op_closure, op_vararg, op_arg_k, op_arg_r, iabc, iabx, iasbx, opcode_number,
  get_op_mode, get_b_mode, get_c_mode, test_a_mode, test_t_mode,
}
use lunacy.Chunk.{Fields, Protos}
use lunacy.Verifier.{
  vararg_isvararg, vararg_needsarg, code_at, has_opcode, has_flag, checkopenop, checkreg,
  check_arg_mode, jump_target, is_open_setlist, check_jump, is_string, proto_nups, check_upvalues,
}

-- The operands: `sb` is the signed one.
pub record Operands : Type 0 where
  pub a : ℕ
  pub b : ℕ
  pub c : ℕ
  pub sb : ℤ

-- A call or a vararg whose results are open needs an instruction behind it that takes them.
abbrev pub open_results : Fields → ℕ → Bool
open_results f pc = checkopenop (code_at f (pc + 1))

-- `switch (getOpMode(op))`: the operands ...
unfoldable pub operands : ℕ → OpCode → Operands
operands i o = elim (get_op_mode (opcode_number o)) [
  | some iabc ↦ record { a = getarg_a i; b = getarg_b i; c = getarg_c i; sb = pos 0 }
  | some iabx ↦ record { a = getarg_a i; b = getarg_bx i; c = 0; sb = pos 0 }
  | some iasbx ↦ record { a = getarg_a i; b = 0; c = 0; sb = getarg_sbx i }
  | none ↦ record { a = getarg_a i; b = 0; c = 0; sb = pos 0 }
]

abbrev pub is_mode_k : OpArgMask → Bool
is_mode_k op_arg_k = true
is_mode_k _ = false

abbrev pub is_mode_r : OpArgMask → Bool
is_mode_r op_arg_r = true
is_mode_r _ = false

-- ... and their checks.
unfoldable pub check_operands : Fields → ℕ → OpCode → Operands → Bool
check_operands f pc o x = elim (get_op_mode (opcode_number o)) [
  | some iabc ↦
      check_arg_mode f x.b (get_b_mode (opcode_number o))
      && check_arg_mode f x.c (get_c_mode (opcode_number o))
  | some iabx ↦ not (is_mode_k (get_b_mode (opcode_number o))) || ltb x.b (length f.k)
  | some iasbx ↦ not (is_mode_r (get_b_mode (opcode_number o))) || check_jump f pc x.sb
  | none ↦ true
]

-- `if (testTMode(op))`: a jump follows, and there is room to skip it.
unfoldable pub check_test : Fields → ℕ → OpCode → Bool
check_test f pc o =
    not (test_t_mode (opcode_number o))
    || (ltb (pc + 2) (length f.code) && has_opcode (code_at f (pc + 1)) op_jmp)

-- `switch (op)`: the checks. `a+b-1 < maxstacksize` is written `a+b < maxstacksize+1`.
unfoldable pub check_op : Fields → Protos → ℕ → Operands → OpCode → Bool
check_op f fs pc x op_loadbool =
    not (x.c == 1) || (ltb (pc + 2) (length f.code) && not (is_open_setlist (code_at f (pc + 1))))
check_op f fs pc x op_getupval = ltb x.b f.nups
check_op f fs pc x op_setupval = ltb x.b f.nups
check_op f fs pc x op_getglobal = is_string (get_elem? f.k x.b)
check_op f fs pc x op_setglobal = is_string (get_elem? f.k x.b)
check_op f fs pc x op_self = checkreg f (x.a + 1)
check_op f fs pc x op_concat = ltb x.b x.c
check_op f fs pc x op_tforloop = leb 1 x.c && checkreg f (x.a + 2 + x.c)
check_op f fs pc x op_forloop = checkreg f (x.a + 3)
check_op f fs pc x op_forprep = checkreg f (x.a + 3)
check_op f fs pc x op_call =
    (x.b == 0 || ltb (x.a + x.b) (f.maxstacksize + 1))
    && (if x.c == 0 then open_results f pc else (x.c == 1 || ltb (x.a + x.c) (f.maxstacksize + 2)))
check_op f fs pc x op_tailcall =
    (x.b == 0 || ltb (x.a + x.b) (f.maxstacksize + 1))
    && (if x.c == 0 then open_results f pc else (x.c == 1 || ltb (x.a + x.c) (f.maxstacksize + 2)))
check_op f fs pc x op_return = leb x.b 1 || ltb (x.a + x.b) (f.maxstacksize + 2)
check_op f fs pc x op_setlist =
    (x.b == 0 || checkreg f (x.a + x.b)) && (not (x.c == 0) || ltb (pc + 1) (length f.code - 1))
check_op f fs pc x op_closure = elim (proto_nups fs x.b) [
  | none ↦ false
  | some nup ↦ ltb (pc + nup) (length f.code) && check_upvalues f nup (pc + 1)
]
check_op f fs pc x op_vararg =
    (has_flag f vararg_isvararg && not (has_flag f vararg_needsarg))
    && ((not (x.b == 0) || open_results f pc) && ltb (x.a + x.b) (f.maxstacksize + 2))
check_op f fs pc x _ = true

-- Not the full check, and a jump forward that does not skip `lastpc`: it is taken.
abbrev pub follow_jump : ℕ → ℕ → ℕ → ℤ → ℕ
follow_jump lastpc reg pc sb = elim (jump_target pc sb) [
  | none ↦ pc
  | some dest ↦ if not (reg == no_reg) && (ltb pc dest && leb dest lastpc) then dest - 1 else pc
]

-- `switch (op)`: the new `pc`, before the loop adds 1 to it.
unfoldable pub advance : Protos → (lastpc reg pc : ℕ) → Operands → OpCode → ℕ
advance fs lastpc reg pc x op_forloop = follow_jump lastpc reg pc x.sb
advance fs lastpc reg pc x op_forprep = follow_jump lastpc reg pc x.sb
advance fs lastpc reg pc x op_jmp = follow_jump lastpc reg pc x.sb
advance fs lastpc reg pc x op_setlist = if x.c == 0 then pc + 1 else pc
advance fs lastpc reg pc x op_closure = elim (proto_nups fs x.b) [
  | none ↦ pc
  | some nup ↦ if reg == no_reg then pc else pc + nup
]
advance fs lastpc reg pc x _ = pc

-- Whether `switch (op)` sets `last` to `pc`, and whether that or `testAMode` does.
abbrev pub also_changes : ℕ → Operands → OpCode → Bool
also_changes reg x op_loadnil = leb x.a reg && leb reg x.b
also_changes reg x op_self = reg == x.a + 1
also_changes reg x op_tforloop = leb (x.a + 2) reg
also_changes reg x op_call = leb x.a reg
also_changes reg x op_tailcall = leb x.a reg
also_changes reg x _ = false

unfoldable pub changes : ℕ → Operands → OpCode → Bool
changes reg x o = (test_a_mode (opcode_number o) && x.a == reg) || also_changes reg x o

-- All the checks of one round.
unfoldable pub check_at : Fields → Protos → ℕ → OpCode → Bool
check_at f fs pc o =
    let x = operands (code_at f pc) o in
    checkreg f x.a && (check_operands f pc o x && (check_test f pc o && check_op f fs pc x o))
