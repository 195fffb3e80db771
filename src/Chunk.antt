-- ===== src/Chunk.antt =====
-- Precompiled chunks: src/ldump.c and src/lundump.c, and the prototypes of src/lobject.h that they
-- write and read. Sizes are those of the 64-bit little-endian build: `int` and `Instruction` have 4
-- bytes, `size_t` and `lua_Number` 8. A `lua_Number` is its bit pattern; it is only copied here.
pub mod Bytes
pub mod Dump
pub mod Load
pub mod Format
pub mod Writes
pub mod Layout
pub mod Blocks
pub mod Reads
pub mod Loaded
pub mod RoundTrip
pub mod Errors
pub mod Checked
use lunacy.Base.{
  ℕ, zero, suc, ◌+◌, ◌*◌, ◌/◌, ◌%◌, List, [], ◌∷◌, ◌++◌, Option, none, some, Bool, true, false, ◌≡◌,
  take, drop, u8, same_bytes,
}

abbrev pub ByteString : Type 0
ByteString = List ℕ

-- A `TString *` that may be NULL. Strings are interned, so equal pointers are equal bytes.
abbrev pub StringRef : Type 0
StringRef = Option ByteString

unfoldable pub same_ref : StringRef → StringRef → Bool
same_ref none none = true
same_ref none (some t) = false
same_ref (some s) none = false
same_ref (some s) (some t) = same_bytes s t

pub data Constant : Type 0 where
  nil : Constant
  boolean : Bool → Constant
  number : ℕ → Constant
  string : StringRef → Constant

pub record LocVar : Type 0 where
  pub varname : StringRef
  pub startpc : ℕ
  pub endpc : ℕ

-- The fields of a `Proto` but the nested prototypes.
pub record Fields : Type 0 where
  pub source : StringRef
  pub linedefined : ℕ
  pub lastlinedefined : ℕ
  pub nups : ℕ
  pub numparams : ℕ
  pub is_vararg : ℕ
  pub maxstacksize : ℕ
  pub code : List ℕ
  pub k : List Constant
  pub lineinfo : List ℕ
  pub locvars : List LocVar
  pub upvalues : List StringRef

mutual
  pub data Proto : Type 0 where
    proto : Fields → Protos → Proto

  pub data Protos : Type 0 where
    no_protos : Protos
    one_more : Proto → Protos → Protos

abbrev pub count_protos : Protos → ℕ
count_protos no_protos = 0
count_protos (one_more f fs) = suc (count_protos fs)

-- The type tags of src/lua.h.
abbrev pub lua_tnil : ℕ
lua_tnil = 0

abbrev pub lua_tboolean : ℕ
lua_tboolean = 1

abbrev pub lua_tnumber : ℕ
lua_tnumber = 3

abbrev pub lua_tstring : ℕ
lua_tstring = 4

-- The memory of an integer of `w` bytes, lowest byte first.
unfoldable pub le_bytes : ℕ → ℕ → ByteString
le_bytes zero x = []
le_bytes (suc w) x = u8 x ∷ le_bytes w (x / 256)

unfoldable pub from_le : ByteString → ℕ
from_le [] = 0
from_le (b ∷ bs) = b + 256 * from_le bs

-- The memory of an array of such integers.
unfoldable pub vector_bytes : ℕ → List ℕ → ByteString
unfolding le_bytes
vector_bytes w [] = []
vector_bytes w (x ∷ xs) = le_bytes w x ++ vector_bytes w xs

unfoldable pub vector_from : ℕ → ℕ → ByteString → List ℕ
unfolding from_le
vector_from w zero bs = []
vector_from w (suc n) bs = from_le (take w bs) ∷ vector_from w n (drop w bs)

-- `luaU_header`
abbrev pub header : ByteString
header = 27 ∷ b'L' ∷ b'u' ∷ b'a' ∷ 0x51 ∷ 0 ∷ 1 ∷ 4 ∷ 8 ∷ 4 ∷ 8 ∷ 0 ∷ []
