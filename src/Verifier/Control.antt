-- ===== src/Verifier/Control.antt =====
-- Where control goes from an instruction that src/ldebug.c has checked.
use mathlib.Core.Path.{subst}
use lunacy.Base.{
  ℕ, suc, ◌+◌, ◌-◌, ◌<◌, ◌≡◌, refl, sym, ◌∙◌, true, false, ◌&&◌, Option, some, ◌⊎◌, inl, inr, ltb,
  ltb→lt, length, Option-cases, and_parts, arith,
}
use lunacy.Base.Int.{ℤ}
use lunacy.Opcode.{get_opcode, getarg_c, getarg_bx, getarg_sbx}
use lunacy.Opcode.Modes.{
  OpCode, op_jmp, op_return, op_forloop, op_forprep, op_closure, op_setlist, op_loadbool,
  opcode_number, get_op_mode, get_b_mode, test_t_mode, opmodes,
}
use lunacy.Chunk.{Fields, Protos}
use lunacy.Verifier.{
  opcode_of, code_at, has_opcode, is_open_setlist, jump_target, proto_nups, check_upvalues,
  check_jump, checkreg,
}
use lunacy.Verifier.Step.{check_operands, check_test, check_op, check_at, operands}
use lunacy.Verifier.Visits.{visited, visited-count, even_run, opcode_of_number, CheckedAt}
use lunacy.Verifier.Flow.{
  skips_one, jumps_away, Next, falls_through, skips, jumps, takes_count, encloses, InCode,
  visited-suc, before_end, plain, closure_end,
}

-- The flag of a LOADBOOL is 0 or 1.
abbrev pub PlainFlag : ℕ → Type 0
PlainFlag i = (has_opcode i op_loadbool ≡ false) ⊎ (getarg_c i < 2)

skip_checks :
    (f : Fields) (fs : Protos) (pc : ℕ) (o : OpCode)
    → get_opcode (code_at f pc) ≡ opcode_number o
    → PlainFlag (code_at f pc)
    → skips_one (code_at f pc) o ≡ true
    → check_test f pc o ≡ true
    → check_op f fs pc (operands (code_at f pc) o) o ≡ true
    → (pc + 2 < length f.code) × (is_open_setlist (code_at f (pc + 1)) ≡ false)
unfolding check_test check_op operands get_op_mode test_t_mode opmodes
skip_checks f fs pc op_loadbool e flag s ht ho =
    let one : getarg_c (code_at f pc) ≡ 1 = ground (arith, e, flag, s) in ground (arith, ho, one)
skip_checks f fs pc _ e flag s ht ho = ground (arith, ht, s)

jump_checks :
    (f : Fields) (pc : ℕ) (o : OpCode)
    → jumps_away o ≡ true
    → check_operands f pc o (operands (code_at f pc) o) ≡ true
    → check_jump f pc (getarg_sbx (code_at f pc)) ≡ true
unfolding check_operands operands get_op_mode get_b_mode opmodes
jump_checks f pc op_jmp s h = h
jump_checks f pc op_forloop s h = h
jump_checks f pc op_forprep s h = h
jump_checks f pc _ s h = absurd cc

jump-InCode :
    (f : Fields) (pc : ℕ) (sb : ℤ) → check_jump f pc sb ≡ true → InCode f (jump_target pc sb)
unfolding check_jump
jump-InCode f pc sb h = elim (Option-cases (jump_target pc sb)) [
  | inl e ↦ let stuck = rw (e, check_jump) at h in absurd cc
  | inr e ↦
      let dest = e.0 in
      let (inside, even) = and_parts _ _ (rw (e.1, check_jump) at h) in
      record {
        position = dest;
        there = e.1;
        inside = ltb→lt _ _ inside;
        instruction = sym (even_run f dest) ∙ even;
      }
]

-- The parts of the checks at `pc`.
abbrev pub Parts : Fields → Protos → ℕ → OpCode → Type 0
Parts f fs pc o =
    let x = operands (code_at f pc) o in
    (check_operands f pc o x ≡ true) × (check_test f pc o ≡ true) × (check_op f fs pc x o ≡ true)

parts :
    (f : Fields) (fs : Protos) (pc : ℕ) (o : OpCode) → check_at f fs pc o ≡ true → Parts f fs pc o
unfolding check_at
parts f fs pc o h =
    let x = operands (code_at f pc) o in
    let a =
      and_parts (checkreg f x.a)
        (check_operands f pc o x && (check_test f pc o && check_op f fs pc x o)) h in
    let b = and_parts (check_operands f pc o x) (check_test f pc o && check_op f fs pc x o) a.1 in
    let c = and_parts (check_test f pc o) (check_op f fs pc x o) b.1 in (b.0, c.0, c.1)

same_op : (n : ℕ) (o o' : OpCode) → opcode_of n ≡ some o → opcode_of n ≡ some o' → o ≡ o'
same_op n o o' e e' = cc

skip-InCode :
    (f : Fields) (pc : ℕ)
    → pc + 2 < length f.code
    → is_open_setlist (code_at f (pc + 1)) ≡ false
    → InCode f (some (suc (suc pc)))
skip-InCode f pc lt h =
    let one : pc + 1 ≡ suc pc = omega arith in
    record {
      position = suc (suc pc);
      there = refl;
      inside = omega arith;
      instruction = visited-suc f (suc pc) (rw one at h);
    }

closure_parts :
    (f : Fields) (fs : Protos) (pc nup : ℕ)
    → proto_nups fs (getarg_bx (code_at f pc)) ≡ some nup
    → check_op f fs pc (operands (code_at f pc) op_closure) op_closure ≡ true
    → (pc + nup < length f.code) × (check_upvalues f nup (pc + 1) ≡ true)
unfolding check_op operands get_op_mode opmodes
closure_parts f fs pc nup e h =
    let (a, b) =
      and_parts (ltb (pc + nup) (length f.code)) (check_upvalues f nup (pc + 1))
        (rw (e, check_op) at h) in
    (ltb→lt _ _ a, b)

setlist_parts :
    (f : Fields) (fs : Protos) (pc : ℕ)
    → getarg_c (code_at f pc) ≡ 0
    → check_op f fs pc (operands (code_at f pc) op_setlist) op_setlist ≡ true
    → pc + 1 < length f.code - 1
unfolding check_op operands get_op_mode opmodes
setlist_parts f fs pc e h = ground (arith, e, h)

-- Where control goes from a checked instruction there is one.
pub Next-InCode :
    (f : Fields) (fs : Protos) (pc : ℕ) (t : Option ℕ)
    → has_opcode (code_at f (length f.code - 1)) op_return ≡ true
    → pc < length f.code
    → visited f pc ≡ true
    → PlainFlag (code_at f pc)
    → CheckedAt f fs pc
    → Next f fs pc t
    → InCode f t
Next-InCode f fs pc t last lt v flag c (falls_through o e s) =
    let number = opcode_of_number (get_opcode (code_at f pc)) o e in
    let (plain_set, plain_return) = plain (code_at f pc) o number s in
    record {
      position = suc pc;
      there = refl;
      inside = before_end f pc last lt plain_return;
      instruction = visited-suc f pc plain_set;
    }
Next-InCode f fs pc t last lt v flag c (skips o e s) =
    let number = opcode_of_number (get_opcode (code_at f pc)) o e in
    let checks = subst (λ p. check_at f fs pc p ≡ true) (same_op _ c.op o c.number e) c.checks in
    let (hx, ht, ho) = parts f fs pc o checks in
    let (room, plain_set) = skip_checks f fs pc o number flag s ht ho in
    skip-InCode f pc room plain_set
Next-InCode f fs pc t last lt v flag c (jumps o e s) =
    let checks = subst (λ p. check_at f fs pc p ≡ true) (same_op _ c.op o c.number e) c.checks in
    jump-InCode f pc (getarg_sbx (code_at f pc)) (jump_checks f pc o s (parts f fs pc o checks).0)
Next-InCode f fs pc t last lt v flag c (takes_count e s) =
    let number = opcode_of_number (get_opcode (code_at f pc)) op_setlist e in
    let checks =
      subst (λ p. check_at f fs pc p ≡ true) (same_op _ c.op op_setlist c.number e) c.checks in
    let room = setlist_parts f fs pc s (parts f fs pc op_setlist checks).2 in
    record {
      position = suc (suc pc);
      there = refl;
      inside = omega arith;
      instruction = visited-count f pc v (ground (arith, number, s));
    }
Next-InCode f fs pc t last lt v flag c (encloses nup e s) =
    let number = opcode_of_number (get_opcode (code_at f pc)) op_closure e in
    let checks =
      subst (λ p. check_at f fs pc p ≡ true) (same_op _ c.op op_closure c.number e) c.checks in
    let (room, pseudo) = closure_parts f fs pc nup s (parts f fs pc op_closure checks).2 in
    let (inside, instruction) =
      closure_end f nup pc last room pseudo (ground (arith, number)) (ground (arith, number)) in
    record { position = suc (pc + nup); there = refl; inside = inside; instruction = instruction }
