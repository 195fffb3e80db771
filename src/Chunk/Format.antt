-- ===== src/Chunk/Format.antt =====
-- The format of a precompiled chunk, as the bytes of each piece: what src/ldump.c writes, without its
-- writer.
use lunacy.Base.{ℕ, ◌+◌, List, [], ◌∷◌, ◌++◌, none, some, Bool, u8, length}
use lunacy.Chunk.{
  ByteString, StringRef, Constant, nil, boolean, number, string, LocVar, Fields, Proto, Protos,
  proto, no_protos, one_more, count_protos, lua_tnil, lua_tboolean, lua_tnumber, lua_tstring,
  le_bytes, vector_bytes, header,
}
use lunacy.Chunk.Dump.{bool_char, kept, written_source}

abbrev pub char_format : ℕ → ByteString
char_format y = u8 y ∷ []

unfoldable pub vector_format : ℕ → List ℕ → ByteString
vector_format w xs = le_bytes 4 (length xs) ++ vector_bytes w xs

unfoldable pub string_format : StringRef → ByteString
string_format none = le_bytes 8 0
string_format (some s) = le_bytes 8 (length s + 1) ++ (s ++ 0 ∷ [])

unfoldable pub constant_format : Constant → ByteString
constant_format nil = char_format lua_tnil
constant_format (boolean b) = char_format lua_tboolean ++ char_format (bool_char b)
constant_format (number n) = char_format lua_tnumber ++ le_bytes 8 n
constant_format (string s) = char_format lua_tstring ++ string_format s

unfoldable pub locvar_format : LocVar → ByteString
locvar_format v = string_format v.varname ++ (le_bytes 4 v.startpc ++ le_bytes 4 v.endpc)

unfoldable pub each_format : {A : Type 0} → (A → ByteString) → List A → ByteString
each_format format [] = []
each_format format (x ∷ xs) = format x ++ each_format format xs

module _ (strip : Bool) where
  unfoldable pub debug_format : Fields → ByteString
  debug_format f =
      vector_format 4 (kept strip f.lineinfo)
      ++ (le_bytes 4 (length (kept strip f.locvars))
          ++ (each_format locvar_format (kept strip f.locvars)
              ++ (le_bytes 4 (length (kept strip f.upvalues))
                  ++ each_format string_format (kept strip f.upvalues))))

  unfoldable mutual
    pub function_format : Proto → StringRef → ByteString
    function_format (proto f fs) p =
        string_format (written_source strip f.source p)
        ++ (le_bytes 4 f.linedefined
            ++ (le_bytes 4 f.lastlinedefined
                ++ (char_format f.nups
                    ++ (char_format f.numparams
                        ++ (char_format f.is_vararg
                            ++ (char_format f.maxstacksize
                                ++ (vector_format 4 f.code
                                    ++ (le_bytes 4 (length f.k)
                                        ++ (each_format constant_format f.k
                                            ++ (le_bytes 4 (count_protos fs)
                                                ++ (functions_format fs f.source
                                                    ++ debug_format f)))))))))))

    pub functions_format : Protos → StringRef → ByteString
    functions_format no_protos p = []
    functions_format (one_more f fs) p = function_format f p ++ functions_format fs p

  unfoldable pub chunk_format : Proto → ByteString
  chunk_format f = header ++ function_format f none
