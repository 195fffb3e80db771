-- ===== src/Verifier/Operands.antt =====
-- What an instruction names, by the description of the opcodes in src/lopcodes.h, and that the
-- checks of src/ldebug.c cover it.
use lunacy.Base.{
  ℕ, ◌+◌, ◌≤◌, ◌<◌, ◌≡◌, refl, true, false, Option, none, some, ◌⊎◌, inl, inr, length, get_elem?,
  Bool-cases, Option-cases, and_parts, arith,
}
use lunacy.Opcode.{getarg_a, getarg_b, getarg_c, getarg_bx, isk, indexk}
use lunacy.Opcode.Modes.{
  OpCode, op_move, op_loadk, op_loadnil, op_getupval, op_getglobal, op_gettable, op_setglobal,
  op_setupval, op_settable, op_self, op_add, op_sub, op_mul, op_div, op_mod, op_pow, op_unm, op_not,
  op_len, op_concat, op_jmp, op_eq, op_lt, op_le, op_testset, op_call, op_tailcall, op_return,
  op_forloop, op_forprep, op_tforloop, op_setlist, op_closure, op_vararg, op_arg_r, op_arg_k,
  get_op_mode, get_b_mode, get_c_mode, opmodes,
}
use lunacy.Chunk.{Constant, string, StringRef, Fields, Protos}
use lunacy.Verifier.{code_at, checkreg, check_arg_mode, is_string, proto_nups}
use lunacy.Verifier.Step.{check_operands, check_op, check_test, check_at, operands}

-- R(r), a register of the function, and RK(r), a constant if ISK(r), else a register.
abbrev pub R : Fields → ℕ → Type 0
R f r = r < f.maxstacksize

abbrev pub Rk : Fields → ℕ → Type 0
Rk f r = ((isk r ≡ true) × (indexk r < length f.k)) ⊎ ((isk r ≡ false) × R f r)

-- Gbl[Kst(b)]: the constant is a string.
abbrev pub Global : Fields → ℕ → Type 0
Global f b = (s : StringRef) × (get_elem? f.k b ≡ some (string s))

-- The operands of the instruction `i` beside A.
abbrev pub Names : Fields → Protos → ℕ → OpCode → Type 0
Names f fs i op_move = R f (getarg_b i)
Names f fs i op_loadk = getarg_bx i < length f.k
Names f fs i op_loadnil = R f (getarg_b i)
Names f fs i op_getupval = getarg_b i < f.nups
Names f fs i op_setupval = getarg_b i < f.nups
Names f fs i op_getglobal = Global f (getarg_bx i)
Names f fs i op_setglobal = Global f (getarg_bx i)
Names f fs i op_gettable = R f (getarg_b i) × Rk f (getarg_c i)
Names f fs i op_settable = Rk f (getarg_b i) × Rk f (getarg_c i)
Names f fs i op_self = R f (getarg_a i + 1) × R f (getarg_b i) × Rk f (getarg_c i)
Names f fs i op_add = Rk f (getarg_b i) × Rk f (getarg_c i)
Names f fs i op_sub = Rk f (getarg_b i) × Rk f (getarg_c i)
Names f fs i op_mul = Rk f (getarg_b i) × Rk f (getarg_c i)
Names f fs i op_div = Rk f (getarg_b i) × Rk f (getarg_c i)
Names f fs i op_mod = Rk f (getarg_b i) × Rk f (getarg_c i)
Names f fs i op_pow = Rk f (getarg_b i) × Rk f (getarg_c i)
Names f fs i op_eq = Rk f (getarg_b i) × Rk f (getarg_c i)
Names f fs i op_lt = Rk f (getarg_b i) × Rk f (getarg_c i)
Names f fs i op_le = Rk f (getarg_b i) × Rk f (getarg_c i)
Names f fs i op_unm = R f (getarg_b i)
Names f fs i op_not = R f (getarg_b i)
Names f fs i op_len = R f (getarg_b i)
Names f fs i op_concat = (getarg_b i < getarg_c i) × R f (getarg_c i)
Names f fs i op_testset = R f (getarg_b i)
Names f fs i op_call =
    (getarg_a i + getarg_b i ≤ f.maxstacksize) × (getarg_a i + getarg_c i < f.maxstacksize + 2)
Names f fs i op_tailcall =
    (getarg_a i + getarg_b i ≤ f.maxstacksize) × (getarg_a i + getarg_c i < f.maxstacksize + 2)
Names f fs i op_return = getarg_a i + getarg_b i < f.maxstacksize + 2
Names f fs i op_forloop = R f (getarg_a i + 3)
Names f fs i op_forprep = R f (getarg_a i + 3)
Names f fs i op_tforloop = (0 < getarg_c i) × R f (getarg_a i + 2 + getarg_c i)
Names f fs i op_setlist = R f (getarg_a i + getarg_b i)
Names f fs i op_closure = (nup : ℕ) × (proto_nups fs (getarg_bx i) ≡ some nup)
Names f fs i op_vararg = getarg_a i + getarg_b i < f.maxstacksize + 2
Names f fs i _ = Unit

check-R : (f : Fields) (r : ℕ) → check_arg_mode f r op_arg_r ≡ true → R f r
unfolding check_arg_mode
check-R f r h = ground (arith, h)

check-Rk : (f : Fields) (r : ℕ) → check_arg_mode f r op_arg_k ≡ true → Rk f r
unfolding check_arg_mode
check-Rk f r h = elim (Bool-cases (isk r)) [
  | inl e ↦ inl (e, ground (arith, rw e at h))
  | inr e ↦ inr (e, ground (arith, rw e at h))
]

check-Global : (f : Fields) (b : ℕ) → is_string (get_elem? f.k b) ≡ true → Global f b
check-Global f b h = go (get_elem? f.k b) h
  where
    go : (c : Option Constant) → is_string c ≡ true → (s : StringRef) × (c ≡ some (string s))
    go none h = absurd cc
    go (some Constant.nil) h = absurd cc
    go (some (Constant.boolean b)) h = absurd cc
    go (some (Constant.number n)) h = absurd cc
    go (some (string s)) h = (s, refl)

operands-a : (i : ℕ) (o : OpCode) → (operands i o).a ≡ getarg_a i
unfolding operands get_op_mode opmodes
operands-a i op_move = refl
operands-a i _ = refl

-- The operands' checks, and those of the opcode.
names :
    (f : Fields) (fs : Protos) (pc : ℕ) (o : OpCode)
    → check_operands f pc o (operands (code_at f pc) o) ≡ true
    → check_op f fs pc (operands (code_at f pc) o) o ≡ true
    → getarg_a (code_at f pc) < f.maxstacksize
    → Names f fs (code_at f pc) o
unfolding check_operands check_op operands get_op_mode get_b_mode get_c_mode opmodes
names f fs pc op_loadk hx ho ha = ground (arith, hx)
names f fs pc op_getglobal hx ho ha = check-Global f _ ho
names f fs pc op_setglobal hx ho ha = check-Global f _ ho
names f fs pc op_closure hx ho ha = elim (Option-cases (proto_nups fs (getarg_bx (code_at f pc)))) [
  | inl e ↦ let stuck = rw (e, check_op) at ho in absurd cc
  | inr e ↦ e
]
names f fs pc op_jmp hx ho ha = tt
names f fs pc op_forloop hx ho ha = ground (arith, ho)
names f fs pc op_forprep hx ho ha = ground (arith, ho)
names f fs pc _ hx ho ha =
    let i = code_at f pc in
    ground (
      arith,
      hx,
      ho,
      ha,
      check-R f (getarg_b i),
      check-R f (getarg_c i),
      check-Rk f (getarg_b i),
      check-Rk f (getarg_c i),
    )

-- All checks passed: A is a register, and the other operands are what they are meant to be.
pub check_at-Names :
    (f : Fields) (fs : Protos) (pc : ℕ) (o : OpCode)
    → check_at f fs pc o ≡ true
    → R f (getarg_a (code_at f pc)) × Names f fs (code_at f pc) o
unfolding check_at
check_at-Names f fs pc o h =
    let all = and_parts (checkreg f (operands (code_at f pc) o).a) _ h in
    let more = and_parts (check_operands f pc o (operands (code_at f pc) o)) _ all.1 in
    let last = and_parts (check_test f pc o) _ more.1 in
    let reg : getarg_a (code_at f pc) < f.maxstacksize =
      ground (arith, rw (operands-a (code_at f pc) o) at (all.0)) in
    (reg, names f fs pc o more.0 last.1 reg)
