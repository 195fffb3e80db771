-- ===== src/Chunk/Layout.antt =====
-- The layout of a precompiled chunk, field by field, as a reader of the file sees it: one layout for all
-- chunks, where a stripped chunk is that of a function without its debug information.
use lunacy.Base.{
  ℕ, suc, ◌+◌, List, [], ◌∷◌, ◌++◌, none, some, Bool, true, false, u8, length, map, if◌then◌else◌,
}
use lunacy.Chunk.{
  ByteString, StringRef, same_ref, Constant, nil, boolean, number, string, LocVar, Fields, Proto,
  Protos, proto, no_protos, one_more, le_bytes,
}

-- A function and those in it, without the names of sources, lines, variables and upvalues.
abbrev pub bare_fields : Fields → Fields
bare_fields f = record f { source = none; lineinfo = []; locvars = []; upvalues = [] }

unfoldable mutual
  pub without_debug : Proto → Proto
  without_debug (proto f fs) = proto (bare_fields f) (all_without_debug fs)

  pub all_without_debug : Protos → Protos
  all_without_debug no_protos = no_protos
  all_without_debug (one_more f fs) = one_more (without_debug f) (all_without_debug fs)

abbrev pub joined : List ByteString → ByteString
joined [] = []
joined (b ∷ bs) = b ++ joined bs

abbrev pub one_byte : ℕ → ByteString
one_byte x = u8 x ∷ []

-- Of `int` and `Instruction`, and of `size_t` and `lua_Number`.
abbrev pub four_bytes : ℕ → ByteString
four_bytes x = le_bytes 4 x

abbrev pub eight_bytes : ℕ → ByteString
eight_bytes x = le_bytes 8 x

-- The size with the ending 0, which is counted and written; a size of 0 for no text.
unfoldable pub text_layout : StringRef → ByteString
text_layout none = eight_bytes 0
text_layout (some s) = joined (eight_bytes (length s + 1) ∷ s ∷ (0 ∷ []) ∷ [])

-- The number of items, then the items.
unfoldable pub counted : {A : Type 0} → (A → ByteString) → List A → ByteString
counted item xs = four_bytes (length xs) ++ joined (map item xs)

-- The type tag, then the value.
unfoldable pub constant_layout : Constant → ByteString
constant_layout nil = 0 ∷ []
constant_layout (boolean true) = 1 ∷ 1 ∷ []
constant_layout (boolean false) = 1 ∷ 0 ∷ []
constant_layout (number n) = 3 ∷ eight_bytes n
constant_layout (string s) = 4 ∷ text_layout s

unfoldable pub variable_layout : LocVar → ByteString
variable_layout v = joined (text_layout v.varname ∷ four_bytes v.startpc ∷ four_bytes v.endpc ∷ [])

-- A function has no source of its own in a function with the same one.
abbrev pub own_source : (source outer : StringRef) → StringRef
own_source source outer = if same_ref source outer then none else source

abbrev pub how_many : Protos → ℕ
how_many no_protos = 0
how_many (one_more f fs) = suc (how_many fs)

unfoldable mutual
  pub function_layout : Proto → (outer : StringRef) → ByteString
  function_layout (proto f fs) outer = joined (
      text_layout (own_source f.source outer)
      ∷ four_bytes f.linedefined
      ∷ four_bytes f.lastlinedefined
      ∷ one_byte f.nups
      ∷ one_byte f.numparams
      ∷ one_byte f.is_vararg
      ∷ one_byte f.maxstacksize
      ∷ counted four_bytes f.code
      ∷ counted constant_layout f.k
      ∷ four_bytes (how_many fs)
      ∷ functions_layout fs f.source
      ∷ counted four_bytes f.lineinfo
      ∷ counted variable_layout f.locvars
      ∷ counted text_layout f.upvalues
      ∷ [])

  pub functions_layout : Protos → (outer : StringRef) → ByteString
  functions_layout no_protos outer = []
  functions_layout (one_more f fs) outer = function_layout f outer ++ functions_layout fs outer

-- The signature and the version of Lua, the format 0, and the machine: little endian, the sizes of
-- `int`, `size_t`, `Instruction` and `lua_Number`, which is no integer.
abbrev pub header_layout : ByteString
header_layout = joined (
    (0x1b ∷ b'L' ∷ b'u' ∷ b'a' ∷ [])
    ∷ (0x51 ∷ [])
    ∷ (0 ∷ [])
    ∷ (1 ∷ [])
    ∷ (4 ∷ [])
    ∷ (8 ∷ [])
    ∷ (4 ∷ [])
    ∷ (8 ∷ [])
    ∷ (0 ∷ [])
    ∷ [])

unfoldable pub chunk_layout : (strip : Bool) → Proto → ByteString
chunk_layout strip f = header_layout ++ function_layout (if strip then without_debug f else f) none
