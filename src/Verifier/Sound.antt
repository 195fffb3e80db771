-- ===== src/Verifier/Sound.antt =====
-- `luaG_checkcode` (src/ldebug.c) against the flow of control and the operands of the instructions.
use mathlib.Core.Path.{subst}
use lunacy.Base.{
  ℕ, ◌-◌, ◌<◌, ◌≡◌, refl, true, Option, some, ◌⊎◌, inl, inr, length, Bool-cases, All, All-get_or,
  arith,
}
use lunacy.Opcode.{get_opcode, getarg_a, no_reg}
use lunacy.Opcode.Modes.{OpCode, op_return}
use lunacy.Chunk.{Fields, Protos, proto}
use lunacy.Verifier.{opcode_of, code_at, has_opcode, precheck}
use lunacy.Verifier.Loop.{
  Run, last_change, failed_check, out_of_rounds, symbexec_loop, symbexec, checkcode,
}
use lunacy.Verifier.Visits.{visited, CheckedAt, loop-CheckedAt}
use lunacy.Verifier.Operands.{R, Names, check_at-Names}
use lunacy.Verifier.Flow.{Next, InCode}
use lunacy.Verifier.Control.{PlainFlag, Next-InCode}

-- The positions that control can reach from the first instruction.
pub data Reach (f : Fields) (fs : Protos) : Option ℕ → Type 0 where
  start : Reach f fs (some 0)
  onward : {pc : ℕ} {t : Option ℕ} → Reach f fs (some pc) → Next f fs pc t → Reach f fs t

-- What `precheck` says of the code.
abbrev Ends : Fields → Type 0
Ends f = (has_opcode (code_at f (length f.code - 1)) op_return ≡ true) × (0 < length f.code)

precheck-Ends : (f : Fields) → precheck f ≡ true → Ends f
unfolding precheck
precheck-Ends f h = ground (arith, h)

Run-cases : (s : Run) → ((r : ℕ) × (s ≡ last_change r)) ⊎ ((s ≡ failed_check) ⊎ (s ≡ out_of_rounds))
Run-cases (last_change r) = inl (r, refl)
Run-cases failed_check = inr (inl refl)
Run-cases out_of_rounds = inr (inr refl)

accepted :
    (f : Fields) (fs : Protos)
    → checkcode (proto f fs) ≡ true
    → Ends f
      × (r : ℕ) × (symbexec_loop f fs (length f.code) no_reg (length f.code) 0 (length f.code - 1)
          ≡ last_change r)
unfolding checkcode symbexec
accepted f fs h =
    let n = length f.code in
    elim (Bool-cases (precheck f)) [
      | inr e ↦ let stuck = rw (e, symbexec, checkcode) at h in absurd cc
      | inl e ↦ elim (Run-cases (symbexec_loop f fs n no_reg n 0 (n - 1))) [
        | inl q ↦ (precheck-Ends f e, q.0, q.1)
        | inr (inl q) ↦ let stuck = rw (e, q, symbexec, checkcode) at h in absurd cc
        | inr (inr q) ↦ let stuck = rw (e, q, symbexec, checkcode) at h in absurd cc
      ]
    ]

-- The instruction has an opcode, and its operands are what this opcode needs: A is a register of the
-- function, and the others name registers, constants, upvalues and functions that there are.
pub record IsSafe (f : Fields) (fs : Protos) (k : ℕ) : Type 0 where
  pub op : OpCode
  pub number : opcode_of (get_opcode (code_at f k)) ≡ some op
  pub register : R f (getarg_a (code_at f k))
  pub others : Names f fs (code_at f k) op

checked-IsSafe : (f : Fields) (fs : Protos) (k : ℕ) → CheckedAt f fs k → IsSafe f fs k
checked-IsSafe f fs k c =
    let (register, others) = check_at-Names f fs k c.op c.checks in
    record { op = c.op; number = c.number; register = register; others = others }

reach-InCode :
    (f : Fields) (fs : Protos) (t : Option ℕ)
    → checkcode (proto f fs) ≡ true
    → All PlainFlag f.code
    → Reach f fs t
    → InCode f t
reach-InCode f fs t h flags start =
    let (ends, r, run) = accepted f fs h in
    record { position = 0; there = refl; inside = ends.1; instruction = unfold visited in refl }
reach-InCode f fs t h flags (onward {pc} reached next) =
    let (ends, r, run) = accepted f fs h in
    let here = reach-InCode f fs (some pc) h flags reached in
    let there = here.there in
    let same : here.position ≡ pc = cc in
    let inside : pc < length f.code = subst (λ k. k < length f.code) same here.inside in
    let v : visited f pc ≡ true = subst (λ k. visited f k ≡ true) same here.instruction in
    let checked =
      loop-CheckedAt f fs _ _ 0 _ r pc run (unfold visited in refl) (omega arith) inside v in
    Next-InCode f fs pc t ends.0 inside v (All-get_or PlainFlag f.code pc 0 flags inside) checked
      next

-- When `luaG_checkcode` accepts a function, and its LOADBOOLs have a flag of 0 or 1, then wherever
-- control gets from its first instruction, there is an instruction of its code, with an opcode,
-- whose operands are registers, constants, upvalues and functions that the function has.
pub checkcode-IsSafe :
    (f : Fields) (fs : Protos) (t : Option ℕ)
    → checkcode (proto f fs) ≡ true
    → All PlainFlag f.code
    → Reach f fs t
    → (k : ℕ) × (t ≡ some k) × (k < length f.code) × IsSafe f fs k
checkcode-IsSafe f fs t h flags reached =
    let (ends, r, run) = accepted f fs h in
    let at = reach-InCode f fs t h flags reached in
    let checked =
      loop-CheckedAt f fs _ _ 0 _ r at.position run (unfold visited in refl) (omega arith) at.inside
        at.instruction in
    (at.position, at.there, at.inside, checked-IsSafe f fs at.position checked)
