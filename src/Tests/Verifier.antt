-- ===== src/Tests/Verifier.antt =====
-- A function that returns the sum of its argument and a constant (src/ldebug.c), and one whose
-- LOADBOOL has the flag 2.
use lunacy.Base.{ℕ, ◌<◌, ◌≡◌, ◌≢◌, refl, true, [], ◌∷◌, none, some, length, inl, All, arith}
use lunacy.Opcode.{get_opcode, getarg_a, getarg_b, getarg_c, isk, indexk}
use lunacy.Opcode.Modes.{
  op_add, op_loadbool, get_op_mode, get_b_mode, get_c_mode, test_t_mode, test_a_mode, opmodes,
}
use lunacy.Chunk.{number, Fields, proto, no_protos}
use lunacy.Verifier.{opcode_of, precheck, check_arg_mode}
use lunacy.Verifier.Step.{
  operands, check_operands, check_test, check_op, check_at, advance, changes,
}
use lunacy.Verifier.Loop.{out_of_rounds, symbexec_loop, symbexec, checkcode}
use lunacy.Verifier.Rounds.{symbexec_loop-rounds}
use lunacy.Verifier.Flow.{falls_through, skips}
use lunacy.Verifier.Control.{PlainFlag}
use lunacy.Verifier.Sound.{IsSafe, Reach, start, onward, checkcode-IsSafe}

-- ADD 0 0 K(0); RETURN 0 2
abbrev adds : Fields
adds = record {
  source = none;
  linedefined = 0;
  lastlinedefined = 0;
  nups = 0;
  numparams = 1;
  is_vararg = 0;
  maxstacksize = 2;
  code = 0x0040000c ∷ 0x0100001e ∷ [];
  k = number 7 ∷ [];
  lineinfo = [];
  locvars = [];
  upvalues = [];
}

adds_accepted : checkcode (proto adds no_protos) ≡ true
unfolding checkcode symbexec symbexec_loop precheck check_at check_operands check_test check_op
    operands advance changes check_arg_mode opcode_of get_opcode getarg_a getarg_b getarg_c isk
    indexk get_op_mode get_b_mode get_c_mode test_t_mode test_a_mode opmodes
adds_accepted = refl

reaches_return : Reach adds no_protos (some 1)
unfolding opcode_of get_opcode
reaches_return = onward start (falls_through op_add refl refl)

plain_flags : All PlainFlag adds.code
unfolding get_opcode
plain_flags = (inl refl, (inl refl, tt))

checkcode-IsSafe_example :
    (k : ℕ) × (some 1 ≡ some k) × (k < length adds.code) × IsSafe adds no_protos k
checkcode-IsSafe_example =
    checkcode-IsSafe adds no_protos (some 1) adds_accepted plain_flags reaches_return

symbexec_loop-rounds_example :
    (symbexec_loop adds no_protos 2 0 2 0 1 ≢ out_of_rounds)
    × (symbexec_loop adds no_protos 2 0 2 0 1 ≡ symbexec_loop adds no_protos 2 0 9 0 1)
symbexec_loop-rounds_example =
    symbexec_loop-rounds adds no_protos 2 0 2 9 0 1 (omega arith) (omega arith)

-- LOADBOOL 0 0 2; RETURN 0 2
abbrev skips_return : Fields
skips_return = record adds { code = 0x00008002 ∷ 0x0100001e ∷ [] }

skips_return_accepted : checkcode (proto skips_return no_protos) ≡ true
unfolding checkcode symbexec symbexec_loop precheck check_at check_operands check_test check_op
    operands advance changes check_arg_mode opcode_of get_opcode getarg_a getarg_b getarg_c isk
    indexk get_op_mode get_b_mode get_c_mode test_t_mode test_a_mode opmodes
skips_return_accepted = refl

-- It is accepted, and control gets behind its code.
leaves_code : Reach skips_return no_protos (some (length skips_return.code))
unfolding opcode_of get_opcode getarg_c
leaves_code = onward start (skips op_loadbool refl refl)
