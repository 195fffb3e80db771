-- ===== src/Tests/Opcodes.antt =====
-- Instruction words (src/lopcodes.h).
use lunacy.Base.{ℕ, ◌+◌, ◌^◌, ◌≡◌, refl, arith}
use lunacy.Opcode.{
  get_opcode, getarg_a, getarg_b, getarg_c, create_abc, set_opcode, setarg_a, setarg_b, setarg_c,
}
use lunacy.Opcode.Fields.{HasFields, create_abc-fields, set-HasFields}

-- GETTABLE 3 5 (constant 7)
abbrev gettable : ℕ
gettable = create_abc 6 3 5 263

gettable_word : gettable ≡ 0x0281_c0c6 + 2 ^ 22
unfolding create_abc
gettable_word = refl

create_abc-fields_example :
    (get_opcode gettable ≡ 6)
    × (getarg_a gettable ≡ 3)
    × (getarg_b gettable ≡ 5)
    × (getarg_c gettable ≡ 263)
create_abc-fields_example =
    create_abc-fields 6 3 5 263 (omega arith) (omega arith) (omega arith) (omega arith)

abbrev word : ℕ
word = 0x1234_5678

set-HasFields_example :
    HasFields (set_opcode word 9) 9 (getarg_a word) (getarg_b word) (getarg_c word)
    × HasFields (setarg_a word 200) (get_opcode word) 200 (getarg_b word) (getarg_c word)
    × HasFields (setarg_b word 500) (get_opcode word) (getarg_a word) 500 (getarg_c word)
    × HasFields (setarg_c word 501) (get_opcode word) (getarg_a word) (getarg_b word) 501
set-HasFields_example =
    set-HasFields word 9 200 500 501 (omega arith) (omega arith) (omega arith) (omega arith)
      (omega arith)
