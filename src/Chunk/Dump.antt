-- ===== src/Chunk/Dump.antt =====
-- src/ldump.c. The writer is a callback: it gets a block and its own data, and returns a status and
-- the data after the call; after a status that is not 0 it is not called any more.
use lunacy.Base.{
  ℕ, ◌+◌, List, [], ◌∷◌, ◌++◌, none, some, Bool, true, false, ◌||◌, ◌==◌, if◌then◌else◌, u8, length,
}
use lunacy.Chunk.{
  ByteString, StringRef, same_ref, Constant, nil, boolean, number, string, LocVar, Fields, Proto,
  Protos, proto, no_protos, one_more, count_protos, lua_tnil, lua_tboolean, lua_tnumber,
  lua_tstring, le_bytes, vector_bytes, header,
}

pub record DumpState (S : Type 0) : Type 0 where
  pub status : ℕ
  pub user : S

infixl 20 ◌▷◌
abbrev pub ◌▷◌ {ℓ} : {A B : Type ℓ} → A → (A → B) → B
x ▷ f = f x

abbrev pub bool_char : Bool → ℕ
bool_char true = 1
bool_char false = 0

-- A list of debug information, which stripping leaves out.
abbrev pub kept : {A : Type 0} → Bool → List A → List A
kept strip xs = if strip then [] else xs

-- `(f->source==p || D->strip) ? NULL : f->source`
abbrev pub written_source : Bool → StringRef → StringRef → StringRef
written_source strip source p = if same_ref source p || strip then none else source

module _ {S : Type 0} (writer : ByteString → S → ℕ × S) where
  unfoldable pub dump_block : ByteString → DumpState S → DumpState S
  dump_block b d =
      let r = writer b d.user in if d.status == 0 then record { status = r.0; user = r.1 } else d

  unfoldable pub dump_char : ℕ → DumpState S → DumpState S
  dump_char y d = dump_block (u8 y ∷ []) d

  unfoldable pub dump_int : ℕ → DumpState S → DumpState S
  dump_int x d = dump_block (le_bytes 4 x) d

  unfoldable pub dump_number : ℕ → DumpState S → DumpState S
  dump_number x d = dump_block (le_bytes 8 x) d

  unfoldable pub dump_size : ℕ → DumpState S → DumpState S
  dump_size x d = dump_block (le_bytes 8 x) d

  -- An array of integers of `w` bytes.
  unfoldable pub dump_vector : ℕ → List ℕ → DumpState S → DumpState S
  dump_vector w xs d = d ▷ dump_int (length xs) ▷ dump_block (vector_bytes w xs)

  -- The text and its ending 0.
  unfoldable pub dump_string : StringRef → DumpState S → DumpState S
  dump_string none d = dump_size 0 d
  dump_string (some s) d = d ▷ dump_size (length s + 1) ▷ dump_block (s ++ 0 ∷ [])

  unfoldable pub dump_each :
      {A : Type 0} → (A → DumpState S → DumpState S) → List A → DumpState S → DumpState S
  dump_each dump [] d = d
  dump_each dump (x ∷ xs) d = dump_each dump xs (dump x d)

  unfoldable pub dump_constant : Constant → DumpState S → DumpState S
  dump_constant nil d = dump_char lua_tnil d
  dump_constant (boolean b) d = d ▷ dump_char lua_tboolean ▷ dump_char (bool_char b)
  dump_constant (number n) d = d ▷ dump_char lua_tnumber ▷ dump_number n
  dump_constant (string s) d = d ▷ dump_char lua_tstring ▷ dump_string s

  unfoldable pub dump_locvar : LocVar → DumpState S → DumpState S
  dump_locvar v d = d ▷ dump_string v.varname ▷ dump_int v.startpc ▷ dump_int v.endpc

  module _ (strip : Bool) where
    unfoldable pub dump_debug : Fields → DumpState S → DumpState S
    dump_debug f d =
        d
        ▷ dump_vector 4 (kept strip f.lineinfo)
        ▷ dump_int (length (kept strip f.locvars))
        ▷ dump_each dump_locvar (kept strip f.locvars)
        ▷ dump_int (length (kept strip f.upvalues))
        ▷ dump_each dump_string (kept strip f.upvalues)

    unfoldable mutual
      pub dump_function : Proto → StringRef → DumpState S → DumpState S
      dump_function (proto f fs) p d =
          d
          ▷ dump_string (written_source strip f.source p)
          ▷ dump_int f.linedefined
          ▷ dump_int f.lastlinedefined
          ▷ dump_char f.nups
          ▷ dump_char f.numparams
          ▷ dump_char f.is_vararg
          ▷ dump_char f.maxstacksize
          ▷ dump_vector 4 f.code
          ▷ dump_int (length f.k)
          ▷ dump_each dump_constant f.k
          ▷ dump_int (count_protos fs)
          ▷ dump_functions fs f.source
          ▷ dump_debug f

      pub dump_functions : Protos → StringRef → DumpState S → DumpState S
      dump_functions no_protos p d = d
      dump_functions (one_more f fs) p d = dump_functions fs p (dump_function f p d)

    -- `luaU_dump` returns the status; the data is what the writer made of its blocks.
    unfoldable pub dump : Proto → S → DumpState S
    dump f user =
        let start : DumpState S = record { status = 0; user = user } in
        start ▷ dump_block header ▷ dump_function f none
