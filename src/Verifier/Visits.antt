-- ===== src/Verifier/Visits.antt =====
-- The positions that the loop of `symbexec` (src/ldebug.c) visits, and its checks there.
use mathlib.Core.Path.{subst}
use lunacy.Base.{
  ℕ, zero, suc, ◌+◌, ◌≤◌, ◌<◌, ◌≡◌, ◌≢◌, refl, sym, Bool, true, false, not, ◌&&◌, none, some, inl,
  inr, ltb, ◌==◌, ==_iff, if◌then◌else◌, get_elem?-past, Bool-cases, Option-cases, passes,
  passes-below, bit_and, arith,
}
use lunacy.Base.Bits.{bit_and_mask}
use lunacy.Base.Int.{ℤ}
use lunacy.Opcode.{get_opcode, getarg_bx, no_reg}
use lunacy.Opcode.Modes.{
  OpCode, op_jmp, op_forloop, op_forprep, op_closure, opcode_number, all_opcodes, get_op_mode,
  opmodes, opmode,
}
use lunacy.Chunk.{Fields, Protos}
use lunacy.Verifier.{opcode_of, code_at, is_open_setlist, setlist_run, proto_nups, jump_target}
use lunacy.Verifier.Step.{operands, check_at, follow_jump, advance, changes}
use lunacy.Verifier.Loop.{last_change, symbexec_loop}

abbrev right_number : ℕ → Bool
right_number n = elim (opcode_of n) [ none ↦ true | some o ↦ opcode_number o == n ]

numbers_right : passes right_number 38 ≡ true
unfolding passes opcode_of
numbers_right = refl

past_the_end : (n : ℕ) → 38 ≤ n → opcode_of n ≡ none
unfolding opcode_of
past_the_end n h = get_elem?-past all_opcodes n h

-- The opcode found for a number has this number.
pub opcode_of_number : (n : ℕ) (o : OpCode) → opcode_of n ≡ some o → n ≡ opcode_number o
opcode_of_number n o e = elim (Bool-cases (ltb n 38)) [
  | inl lt ↦
      let right = passes-below right_number 38 n (ground (arith, lt)) numbers_right in
      sym ((==_iff _ _).0 (rw (e, right_number) at right))
  | inr ge ↦ let gone = past_the_end n (ground (arith, ge)) in absurd cc
]

-- Not the count of a SETLIST: counted from the start, through the SETLISTs that are visited.
unfoldable pub visited : Fields → ℕ → Bool
visited f zero = true
visited f (suc k) = let before = visited f k in not (before && is_open_setlist (code_at f k))

-- The check of a jump tells the visited positions by the parity of a run.
pub even_run : (f : Fields) (k : ℕ) → (bit_and (setlist_run f k) 1 == 0) ≡ visited f k
unfolding setlist_run visited
even_run f zero = refl
even_run f (suc k) = elim (Bool-cases (is_open_setlist (code_at f k))) [
  | inl e ↦
      rw (e, ← even_run f k)
        (ground (arith, bit_and_mask 1 (setlist_run f k), bit_and_mask 1 (suc (setlist_run f k))))
  | inr e ↦ rw e (elim (Bool-cases (visited f k)) [ inl v ↦ rw v | inr v ↦ rw v ])
]

no_jump : (lastpc pc : ℕ) (sb : ℤ) → follow_jump lastpc no_reg pc sb ≡ pc
no_jump lastpc pc sb = elim (Option-cases (jump_target pc sb)) [
  | inl q ↦ rw (q, follow_jump)
  | inr q ↦ rw (q.1, follow_jump)
]

-- With no register traced, a round goes on to the next instruction, past the count of a SETLIST.
advance-no_reg :
    (fs : Protos) (lastpc pc i : ℕ) (o : OpCode)
    → get_opcode i ≡ opcode_number o
    → advance fs lastpc no_reg pc (operands i o) o ≡ (if is_open_setlist i then pc + 1 else pc)
unfolding advance operands get_op_mode opmodes opmode
advance-no_reg fs lastpc pc i op_jmp e = rw e (no_jump lastpc pc _)
advance-no_reg fs lastpc pc i op_forloop e = rw e (no_jump lastpc pc _)
advance-no_reg fs lastpc pc i op_forprep e = rw e (no_jump lastpc pc _)
advance-no_reg fs lastpc pc i op_closure e = elim (Option-cases (proto_nups fs (getarg_bx i))) [
  | inl q ↦ rw (e, q, advance)
  | inr q ↦ rw (e, q.1, advance)
]
advance-no_reg fs lastpc pc i _ e = rw e

-- The instruction at `k` has an opcode and passes the checks.
pub record CheckedAt (f : Fields) (fs : Protos) (k : ℕ) : Type 0 where
  pub op : OpCode
  pub number : opcode_of (get_opcode (code_at f k)) ≡ some op
  pub checks : check_at f fs k op ≡ true

pub visited-count :
    (f : Fields) (k : ℕ)
    → visited f k ≡ true
    → is_open_setlist (code_at f k) ≡ true
    → visited f (suc (suc k)) ≡ true
unfolding visited
visited-count f k v e = rw (v, e)

next_visited :
    (f : Fields) (pc : ℕ)
    → visited f pc ≡ true
    → (k : ℕ) → suc pc ≤ k
    → visited f k ≡ true
    → let next = suc (if is_open_setlist (code_at f pc) then pc + 1 else pc) in
      (visited f next ≡ true) × (next ≤ k)
unfolding visited
next_visited f pc v k le vk = elim (Bool-cases (is_open_setlist (code_at f pc))) [
  | inr e ↦ let fine : visited f (suc pc) ≡ true = rw (v, e) in rw e (fine, le)
  | inl e ↦
      let one : pc + 1 ≡ suc pc = omega arith in
      let count : visited f (suc pc) ≡ false = rw (v, e) in
      let other : k ≢ suc pc = λ q. (let w = rw q at vk in absurd cc) in
      rw (e, one) (rw count, omega (arith, other))
]

pub loop-CheckedAt :
    (f : Fields) (fs : Protos) (lastpc rounds pc last r k : ℕ)
    → symbexec_loop f fs lastpc no_reg rounds pc last ≡ last_change r
    → visited f pc ≡ true
    → pc ≤ k
    → k < lastpc
    → visited f k ≡ true
    → CheckedAt f fs k
unfolding symbexec_loop
loop-CheckedAt f fs lastpc zero pc last r k run v le lt vk =
    let on : ltb pc lastpc ≡ true = ground arith in let stuck = rw on at run in absurd cc
loop-CheckedAt f fs lastpc (suc rounds) pc last r k run v le lt vk =
    let on : ltb pc lastpc ≡ true = ground arith in
    let i = code_at f pc in
    elim (Option-cases (opcode_of (get_opcode i))) [
      | inl none_there ↦ let stuck = rw (none_there, on, symbexec_loop) at run in absurd cc
      | inr q ↦
          let o = q.0 in
          let e = opcode_of_number (get_opcode i) o q.1 in
          elim (Bool-cases (check_at f fs pc o)) [
            | inr refused ↦ let stuck = rw (q.1, on, refused, symbexec_loop) at run in absurd cc
            | inl passed ↦ elim (Bool-cases (k == pc)) [
              | inl same ↦
                  let here : pc ≡ k = sym ((==_iff k pc).0 same) in
                  subst (CheckedAt f fs) here (record { op = o; number = q.1; checks = passed })
              | inr ne ↦
                  let x = operands i o in
                  let further : suc pc ≤ k = ground (arith, ne) in
                  let (v', le') = next_visited f pc v k further vk in
                  let onward = rw (q.1, on, passed, symbexec_loop) at run in
                  let step = advance-no_reg fs lastpc pc i o e in
                  loop-CheckedAt f fs lastpc rounds _ (if changes no_reg x o then pc else last) r k
                    (rw step at onward) v' le' lt vk
            ]
          ]
    ]
