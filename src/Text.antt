-- ===== src/Text.antt =====
-- The functions of src/lstrlib.c that need no pattern. An argument that is an integer is a `lua_Integer`
-- of 64 bits, here in ℤ; `luaL_Buffer` is the text that it holds.
pub mod Slices
use lunacy.Base.{
  ℕ, zero, suc, ◌+◌, ◌-◌, ◌%◌, ◌^◌, Bool, true, false, ◌&&◌, ◌||◌, List, [], ◌∷◌, ◌++◌, Option,
  none, some, ltb, leb, ◌==◌, if◌then◌else◌, length, get_or, map, take, drop,
}
use lunacy.Base.Int.{ℤ, pos, negsuc, ◌+ℤ◌, pos_part, ltb_ℤ}
use lunacy.Patterns.{Bytes}
use lunacy.Patterns.Find.{posrelat}

-- The limits of a part of a text: from 1 on, to its length.
abbrev pub at_least_one : ℕ → ℕ
at_least_one p = if ltb p 1 then 1 else p

abbrev pub at_most : ℕ → ℕ → ℕ
at_most l p = if ltb l p then l else p

unfoldable pub sub_slice : Bytes → ℕ → ℕ → Bytes
sub_slice s start end = if leb start end then take (end - start + 1) (drop (start - 1) s) else []

unfoldable pub str_sub : Bytes → ℤ → ℤ → Bytes
str_sub s i j =
    let l = length s in sub_slice s (at_least_one (posrelat i l)) (at_most l (posrelat j l))

-- `while (l--)`
unfoldable pub reverse_loop : Bytes → ℕ → Bytes
reverse_loop s zero = []
reverse_loop s (suc l) = get_or s l 0 ∷ reverse_loop s l

unfoldable pub str_reverse : Bytes → Bytes
str_reverse s = reverse_loop s (length s)

unfoldable pub str_lower : (tolower : ℕ → ℕ) → Bytes → Bytes
str_lower tolower s = map tolower s

unfoldable pub str_upper : (toupper : ℕ → ℕ) → Bytes → Bytes
str_upper toupper s = map toupper s

-- The cast of a number of up to 64 bits to `int`, and `luaL_checkint` of a `lua_Integer`.
unfoldable pub to_int : ℕ → ℤ
to_int n = let low = n % 2 ^ 32 in if ltb low (2 ^ 31) then pos low else negsuc (2 ^ 32 - 1 - low)

unfoldable pub check_int : ℤ → ℤ
check_int (pos n) = to_int n
check_int (negsuc n) = to_int (2 ^ 32 - 1 - n % 2 ^ 32)

-- `while (n-- > 0)`
unfoldable pub rep_loop : ℕ → Bytes → Bytes
rep_loop zero s = []
rep_loop (suc n) s = s ++ rep_loop n s

unfoldable pub str_rep : Bytes → ℤ → Bytes
str_rep s n = rep_loop (pos_part (check_int n)) s

-- LUAI_MAXCSTACK
abbrev pub max_cstack : ℕ
max_cstack = 8000

-- `lua_checkstack` for `size` more values, where the function has `used` values on its stack.
unfoldable pub check_stack : (used size : ℕ) → Bool
check_stack used size = leb size max_cstack && leb (used + size) max_cstack

-- The values from `posi` to `pose`, or none for the error "string slice too long": `int` overflows, or
-- the stack does.
unfoldable pub byte_slice : (used : ℕ) → Bytes → ℕ → ℕ → Option (List ℕ)
byte_slice used s posi pose =
    if ltb pose posi
    then some []
    else (let n = to_int (pose - posi + 1) in
        if ltb_ℤ (pos pose) (pos posi +ℤ n) && check_stack used (pos_part n)
        then some (take (pos_part n) (drop (posi - 1) s))
        else none)

-- `i` is 1 by default, and `j` is `i` after `posrelat`; `used` is the number of arguments.
unfoldable pub str_byte : (used : ℕ) → Bytes → ℤ → Option ℤ → Option (List ℕ)
str_byte used s i j =
    let l = length s in
    let posi = posrelat i l in
    let pose : ℕ = elim j [ none ↦ posi | some k ↦ posrelat k l ] in
    byte_slice used s (at_least_one posi) (at_most l pose)

-- `uchar(c) == c`, or none for the error "invalid value"; then the other characters.
abbrev pub add_char : ℤ → Option Bytes → Option Bytes
add_char (negsuc n) rest = none
add_char (pos c) rest =
    if ltb c 256 then elim rest [ none ↦ none | some t ↦ some (c ∷ t) ] else none

unfoldable pub str_char : List ℤ → Option Bytes
str_char [] = some []
str_char (arg ∷ args) = add_char (check_int arg) (str_char args)
