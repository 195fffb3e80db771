-- ===== src/Verifier/Rounds.antt =====
-- The rounds of the loop of `symbexec` (src/ldebug.c).
use lunacy.Base.{
  ℕ, zero, suc, ◌+◌, ◌≤◌, ◌≡◌, ◌≢◌, refl, sym, ◌∙◌, false, inl, inr, ltb, if◌then◌else◌, Bool-cases,
  Option-cases, arith,
}
use lunacy.Base.Int.{ℤ}
use lunacy.Opcode.{get_opcode}
use lunacy.Opcode.Modes.{OpCode, op_jmp, op_forloop, op_forprep, op_closure, op_setlist}
use lunacy.Chunk.{Fields, Protos}
use lunacy.Verifier.{opcode_of, code_at, jump_target, proto_nups}
use lunacy.Verifier.Step.{Operands, operands, follow_jump, advance, changes, check_at}
use lunacy.Verifier.Loop.{last_change, out_of_rounds, symbexec_loop}

follow_jump-ge : (lastpc reg pc : ℕ) (sb : ℤ) → pc ≤ follow_jump lastpc reg pc sb
follow_jump-ge lastpc reg pc sb = elim (Option-cases (jump_target pc sb)) [
  | inl q ↦ rw (q, follow_jump) (omega arith)
  | inr q ↦ rw (q.1, follow_jump) (ground arith)
]

advance-ge :
    (fs : Protos) (lastpc reg pc : ℕ) (x : Operands) (o : OpCode)
    → pc ≤ advance fs lastpc reg pc x o
unfolding advance
advance-ge fs lastpc reg pc x op_jmp = follow_jump-ge lastpc reg pc x.sb
advance-ge fs lastpc reg pc x op_forloop = follow_jump-ge lastpc reg pc x.sb
advance-ge fs lastpc reg pc x op_forprep = follow_jump-ge lastpc reg pc x.sb
advance-ge fs lastpc reg pc x op_setlist = ground arith
advance-ge fs lastpc reg pc x op_closure = elim (Option-cases (proto_nups fs x.b)) [
  | inl q ↦ rw (q, advance) (omega arith)
  | inr q ↦ rw (q.1, advance) (ground arith)
]
advance-ge fs lastpc reg pc x _ = omega arith

at_end :
    (f : Fields) (fs : Protos) (lastpc reg rounds pc last : ℕ)
    → lastpc ≤ pc
    → symbexec_loop f fs lastpc reg rounds pc last ≡ last_change last
unfolding symbexec_loop
at_end f fs lastpc reg zero pc last h = let off : ltb pc lastpc ≡ false = ground arith in rw off
at_end f fs lastpc reg (suc rounds) pc last h =
    let off : ltb pc lastpc ≡ false = ground arith in
    elim (Option-cases (opcode_of (get_opcode (code_at f pc)))) [
      | inl q ↦ rw (q, off, symbexec_loop)
      | inr q ↦ rw (q.1, off, symbexec_loop)
    ]

same_run :
    (f : Fields) (fs : Protos) (lastpc reg rounds more pc last : ℕ)
    → lastpc ≤ pc + rounds
    → lastpc ≤ pc + more
    → symbexec_loop f fs lastpc reg rounds pc last ≡ symbexec_loop f fs lastpc reg more pc last
unfolding symbexec_loop
same_run f fs lastpc reg zero zero pc last h h' = refl
same_run f fs lastpc reg zero (suc more) pc last h h' =
    let over : lastpc ≤ pc = omega arith in
    at_end f fs lastpc reg zero pc last over ∙ sym (at_end f fs lastpc reg (suc more) pc last over)
same_run f fs lastpc reg (suc rounds) zero pc last h h' =
    let over : lastpc ≤ pc = omega arith in
    at_end f fs lastpc reg (suc rounds) pc last over
    ∙ sym (at_end f fs lastpc reg zero pc last over)
same_run f fs lastpc reg (suc rounds) (suc more) pc last h h' = elim (Bool-cases (ltb pc lastpc)) [
  | inr e ↦
      let over : lastpc ≤ pc = ground (arith, e) in
      at_end f fs lastpc reg (suc rounds) pc last over
      ∙ sym (at_end f fs lastpc reg (suc more) pc last over)
  | inl e ↦ elim (Option-cases (opcode_of (get_opcode (code_at f pc)))) [
    | inl q ↦ rw (q, symbexec_loop)
    | inr q ↦
        let o = q.0 in
        let x = operands (code_at f pc) o in
        let further = advance-ge fs lastpc reg pc x o in
        let same =
          same_run f fs lastpc reg rounds more (suc (advance fs lastpc reg pc x o))
            (if changes reg x o then pc else last) (omega arith) (omega arith) in
        rw (q.1, same, symbexec_loop)
  ]
]

in_time :
    (f : Fields) (fs : Protos) (lastpc reg rounds pc last : ℕ)
    → lastpc ≤ pc + rounds
    → symbexec_loop f fs lastpc reg rounds pc last ≢ out_of_rounds
unfolding symbexec_loop
in_time f fs lastpc reg zero pc last enough e =
    let over = at_end f fs lastpc reg zero pc last (omega arith) in
    let bad : last_change last ≡ out_of_rounds = sym over ∙ e in absurd cc
in_time f fs lastpc reg (suc rounds) pc last enough e = elim (Bool-cases (ltb pc lastpc)) [
  | inr off ↦
      let over = at_end f fs lastpc reg (suc rounds) pc last (ground (arith, off)) in
      let bad : last_change last ≡ out_of_rounds = sym over ∙ e in absurd cc
  | inl on ↦ elim (Option-cases (opcode_of (get_opcode (code_at f pc)))) [
    | inl q ↦ let stuck = rw (q, on, symbexec_loop) at e in absurd cc
    | inr q ↦ elim (Bool-cases (check_at f fs pc q.0)) [
      | inr refused ↦ let stuck = rw (q.1, on, refused, symbexec_loop) at e in absurd cc
      | inl passed ↦
          let o = q.0 in
          let x = operands (code_at f pc) o in
          let further = advance-ge fs lastpc reg pc x o in
          let onward = rw (q.1, on, passed, symbexec_loop) at e in
          in_time f fs lastpc reg rounds (suc (advance fs lastpc reg pc x o))
            (if changes reg x o then pc else last) (omega arith) onward
    ]
  ]
]

-- The symbolic execution ends: `lastpc - pc` rounds are enough from `pc` on, whichever register is
-- traced. They never run out, and any other number of rounds that is enough gives the same result.
pub symbexec_loop-rounds :
    (f : Fields) (fs : Protos) (lastpc reg rounds more pc last : ℕ)
    → lastpc ≤ pc + rounds
    → lastpc ≤ pc + more
    → (symbexec_loop f fs lastpc reg rounds pc last ≢ out_of_rounds)
      × (symbexec_loop f fs lastpc reg rounds pc last ≡ symbexec_loop f fs lastpc reg more pc last)
symbexec_loop-rounds f fs lastpc reg rounds more pc last enough also = (
  in_time f fs lastpc reg rounds pc last enough,
  same_run f fs lastpc reg rounds more pc last enough also,
)
