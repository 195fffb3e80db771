-- ===== src/Chunk/Writes.antt =====
-- The blocks that src/ldump.c hands to its writer, against the format of Chunk/Format.
use lunacy.Base.{ℕ, ◌≡◌, refl, List, [], ◌∷◌, ◌++◌, append_assoc, append-nil, none, some, Bool}
use lunacy.Chunk.{
  ByteString, StringRef, Constant, nil, boolean, number, string, LocVar, Fields, Proto, Protos,
  proto, no_protos, one_more, header, le_bytes,
}
use lunacy.Chunk.Dump.{
  DumpState, dump_block, dump_char, dump_int, dump_number, dump_size, dump_vector, dump_string,
  dump_each, dump_constant, dump_locvar, dump_debug, dump_function, dump_functions, dump,
}
use lunacy.Chunk.Format.{
  char_format, vector_format, string_format, constant_format, locvar_format, each_format,
  debug_format, function_format, functions_format, chunk_format,
}

-- The writer that keeps all that it gets, and never fails.
abbrev pub collect : ByteString → ByteString → ℕ × ByteString
collect b s = (0, s ++ b)

abbrev pub holding : ByteString → DumpState ByteString
holding s = record { status = 0; user = s }

vector-Writes :
    (w : ℕ) (xs : List ℕ) (s : ByteString)
    → dump_vector collect w xs (holding s) ≡ holding (s ++ vector_format w xs)
unfolding dump_vector dump_int dump_block vector_format
vector-Writes w xs s = rw append_assoc

string-Writes :
    (r : StringRef) (s : ByteString)
    → dump_string collect r (holding s) ≡ holding (s ++ string_format r)
unfolding dump_string dump_size dump_block string_format
string-Writes none s = refl
string-Writes (some t) s = rw append_assoc

constant-Writes :
    (c : Constant) (s : ByteString)
    → dump_constant collect c (holding s) ≡ holding (s ++ constant_format c)
unfolding dump_constant dump_char dump_number dump_block constant_format
constant-Writes nil s = refl
constant-Writes (boolean b) s = simp append_assoc
constant-Writes (number n) s = simp append_assoc
constant-Writes (string t) s = simp (string-Writes, append_assoc)

locvar-Writes :
    (v : LocVar) (s : ByteString)
    → dump_locvar collect v (holding s) ≡ holding (s ++ locvar_format v)
unfolding dump_locvar dump_int dump_block locvar_format
locvar-Writes v s = simp (string-Writes, append_assoc)

each-Writes :
    {A : Type 0} (op : A → DumpState ByteString → DumpState ByteString) (format : A → ByteString)
    → ((x : A) (s : ByteString) → op x (holding s) ≡ holding (s ++ format x))
    → (xs : List A) (s : ByteString)
    → dump_each collect op xs (holding s) ≡ holding (s ++ each_format format xs)
unfolding dump_each each_format
each-Writes op format one [] s = rw append-nil
each-Writes op format one (x ∷ xs) s =
    simp (one x s, each-Writes op format one xs (s ++ format x), append_assoc)

int-Writes : (x : ℕ) (s : ByteString) → dump_int collect x (holding s) ≡ holding (s ++ le_bytes 4 x)
unfolding dump_int dump_block
int-Writes x s = refl

char-Writes :
    (x : ℕ) (s : ByteString) → dump_char collect x (holding s) ≡ holding (s ++ char_format x)
unfolding dump_char dump_block
char-Writes x s = refl

ruleset pieces = (vector-Writes, string-Writes, int-Writes, char-Writes, append_assoc)

debug-Writes :
    (strip : Bool) (f : Fields) (s : ByteString)
    → dump_debug collect strip f (holding s) ≡ holding (s ++ debug_format strip f)
unfolding dump_debug debug_format
debug-Writes strip f s = simp (
  pieces,
  each-Writes (dump_locvar collect) locvar_format locvar-Writes,
  each-Writes (dump_string collect) string_format string-Writes,
)

mutual
  unfolding dump_function function_format dump_functions functions_format

  function-Writes :
      (strip : Bool) (f : Proto) (p : StringRef) (s : ByteString)
      → dump_function collect strip f p (holding s) ≡ holding (s ++ function_format strip f p)
  function-Writes strip (proto f fs) p s = simp (
    pieces,
    each-Writes (dump_constant collect) constant_format constant-Writes,
    functions-Writes strip fs f.source,
    debug-Writes,
  )

  functions-Writes :
      (strip : Bool) (fs : Protos) (p : StringRef) (s : ByteString)
      → dump_functions collect strip fs p (holding s) ≡ holding (s ++ functions_format strip fs p)
  functions-Writes strip no_protos p s = rw append-nil
  functions-Writes strip (one_more f fs) p s =
      simp (function-Writes strip f p s, functions-Writes strip fs p, append_assoc)

-- The writer that collects its blocks has the bytes of Chunk/Format in the end, and the status is 0.
pub dump-chunk_format :
    (strip : Bool) (f : Proto) → dump collect strip f [] ≡ holding (chunk_format strip f)
unfolding dump chunk_format dump_block
dump-chunk_format strip f = function-Writes strip f none header
