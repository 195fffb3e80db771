-- ===== src/Verifier/Loop.antt =====
-- The loop of `symbexec` (src/ldebug.c), and `luaG_checkcode`.
use lunacy.Base.{ℕ, zero, suc, ◌-◌, Bool, not, none, some, ltb, ◌==◌, if◌then◌else◌, length}
use lunacy.Opcode.{get_opcode, no_reg}
use lunacy.Chunk.{Fields, Proto, Protos, proto}
use lunacy.Verifier.{opcode_of, code_at, precheck}
use lunacy.Verifier.Step.{operands, check_at, advance, changes}

-- How the loop ends: with the last instruction that changes the register, at a failed check, or
-- without rounds left.
pub data Run : Type 0 where
  last_change : ℕ → Run
  failed_check out_of_rounds : Run

-- The rounds from `pc` on.
unfoldable pub symbexec_loop : Fields → Protos → (lastpc reg rounds pc last : ℕ) → Run
symbexec_loop f fs lastpc reg zero pc last =
    if ltb pc lastpc then out_of_rounds else last_change last
symbexec_loop f fs lastpc reg (suc rounds) pc last = elim (opcode_of (get_opcode (code_at f pc))) [
  | none ↦ if ltb pc lastpc then failed_check else last_change last
  | some o ↦
      let x = operands (code_at f pc) o in
      let rest =
        symbexec_loop f fs lastpc reg rounds (suc (advance fs lastpc reg pc x o))
          (if changes reg x o then pc else last) in
      if ltb pc lastpc
      then (if check_at f fs pc o then rest else failed_check)
      else last_change last
]

-- The instruction at `last`, or 0.
unfoldable pub symbexec : Proto → ℕ → ℕ → ℕ
symbexec (proto f fs) lastpc reg =
    let run = symbexec_loop f fs lastpc reg lastpc 0 (length f.code - 1) in
    let result : ℕ = elim run [
      | last_change last ↦ code_at f last
      | failed_check ↦ 0
      | out_of_rounds ↦ 0
    ] in
    if precheck f then result else 0

unfoldable pub checkcode : Proto → Bool
checkcode (proto f fs) = not (symbexec (proto f fs) (length f.code) no_reg == 0)
