-- ===== src/Verifier/Flow.antt =====
-- The flow of control, by the description of the opcodes in src/lopcodes.h, and that the checks of
-- src/ldebug.c keep it in the code.
use lunacy.Base.{
  ℕ, zero, suc, ◌+◌, ◌-◌, ◌<◌, ◌≡◌, ◌≢◌, Bool, true, false, not, ◌||◌, Option, some, inl, inr, ◌==◌,
  ==_iff, length, Bool-cases, and_parts, arith,
}
use lunacy.Opcode.{get_opcode, getarg_c, getarg_bx, getarg_sbx}
use lunacy.Opcode.Modes.{
  OpCode, is_test, op_jmp, op_return, op_forloop, op_forprep, op_closure, op_setlist, op_loadbool,
  op_move, op_getupval, opcode_number,
}
use lunacy.Chunk.{Fields, Protos}
use lunacy.Verifier.{
  opcode_of, code_at, has_opcode, is_open_setlist, jump_target, proto_nups, check_upvalues,
}
use lunacy.Verifier.Visits.{visited}

-- The next instruction runs, ...
abbrev pub falls : ℕ → OpCode → Bool
falls i op_jmp = false
falls i op_return = false
falls i op_forprep = false
falls i op_closure = false
falls i op_setlist = not (getarg_c i == 0)
falls i op_loadbool = getarg_c i == 0
falls i _ = true

-- ... the one after it, ...
abbrev pub skips_one : ℕ → OpCode → Bool
skips_one i op_loadbool = not (getarg_c i == 0)
skips_one i o = is_test o

-- ... or the one that sBx leads to.
abbrev pub jumps_away : OpCode → Bool
jumps_away op_jmp = true
jumps_away op_forloop = true
jumps_away op_forprep = true
jumps_away _ = false

-- The positions after `pc`. A SETLIST takes its count, and a CLOSURE the words of its upvalues, from
-- the code. `none` is before the first instruction.
pub data Next (f : Fields) (fs : Protos) (pc : ℕ) : Option ℕ → Type 0 where
  falls_through :
      (o : OpCode)
      → opcode_of (get_opcode (code_at f pc)) ≡ some o
      → falls (code_at f pc) o ≡ true
      → Next f fs pc (some (suc pc))
  skips :
      (o : OpCode)
      → opcode_of (get_opcode (code_at f pc)) ≡ some o
      → skips_one (code_at f pc) o ≡ true
      → Next f fs pc (some (suc (suc pc)))
  jumps :
      (o : OpCode)
      → opcode_of (get_opcode (code_at f pc)) ≡ some o
      → jumps_away o ≡ true
      → Next f fs pc (jump_target pc (getarg_sbx (code_at f pc)))
  takes_count :
      opcode_of (get_opcode (code_at f pc)) ≡ some op_setlist
      → getarg_c (code_at f pc) ≡ 0
      → Next f fs pc (some (suc (suc pc)))
  encloses :
      (nup : ℕ)
      → opcode_of (get_opcode (code_at f pc)) ≡ some op_closure
      → proto_nups fs (getarg_bx (code_at f pc)) ≡ some nup
      → Next f fs pc (some (suc (pc + nup)))

-- An instruction of the code, and not the count of a SETLIST.
pub record InCode (f : Fields) (t : Option ℕ) : Type 0 where
  pub position : ℕ
  pub there : t ≡ some position
  pub inside : position < length f.code
  pub instruction : visited f position ≡ true

pub visited-suc :
    (f : Fields) (k : ℕ) → is_open_setlist (code_at f k) ≡ false → visited f (suc k) ≡ true
unfolding visited
visited-suc f k e = elim (Bool-cases (visited f k)) [ inl v ↦ rw (e, v) | inr v ↦ rw (e, v) ]

pub other_opcode :
    (f : Fields) (k : ℕ) (o : OpCode)
    → has_opcode (code_at f k) o ≡ true
    → opcode_number o ≢ 34
    → is_open_setlist (code_at f k) ≡ false
other_opcode f k o h ne = ground (arith, h, ne)

-- Before an instruction that is no RETURN, the code does not end.
pub before_end :
    (f : Fields) (k : ℕ)
    → has_opcode (code_at f (length f.code - 1)) op_return ≡ true
    → k < length f.code
    → get_opcode (code_at f k) ≢ 30
    → suc k < length f.code
before_end f k last lt ne = elim (Bool-cases (k == length f.code - 1)) [
  | inl e ↦
      let end : k ≡ length f.code - 1 = (==_iff _ _).0 e in
      absurd (ne (rw end ((==_iff _ _).0 last)))
  | inr e ↦ ground (arith, e)
]

pub plain :
    (i : ℕ) (o : OpCode)
    → get_opcode i ≡ opcode_number o
    → falls i o ≡ true
    → (is_open_setlist i ≡ false) × (get_opcode i ≢ 30)
plain i op_return e h = absurd cc
plain i op_setlist e h = ground (arith, h, e)
plain i _ e h = ground (arith, e, h)

pub closure_end :
    (f : Fields) (nup pc : ℕ)
    → has_opcode (code_at f (length f.code - 1)) op_return ≡ true
    → pc + nup < length f.code
    → check_upvalues f nup (pc + 1) ≡ true
    → is_open_setlist (code_at f pc) ≡ false
    → get_opcode (code_at f pc) ≢ 30
    → (suc (pc + nup) < length f.code) × (visited f (suc (pc + nup)) ≡ true)
unfolding check_upvalues
closure_end f zero pc last lt h plain_set plain_return =
    let same : pc + 0 ≡ pc = omega arith in
    rw same (before_end f pc last (omega arith) plain_return, visited-suc f pc plain_set)
closure_end f (suc nup) pc last lt h plain_set plain_return =
    let i = code_at f (pc + 1) in
    let (here, rest) =
      and_parts (has_opcode i op_getupval || has_opcode i op_move)
        (check_upvalues f nup (pc + 1 + 1)) h in
    let next : suc pc ≡ pc + 1 = omega arith in
    let shift : pc + suc nup ≡ suc pc + nup = omega arith in
    let pseudo : (is_open_setlist (code_at f (pc + 1)) ≡ false)
        × (get_opcode (code_at f (pc + 1)) ≢ 30) =
      ground (arith, here) in
    rw shift (
      closure_end f nup (suc pc) last (omega arith) (rw next rest) (rw next pseudo.0)
        (rw next pseudo.1))
