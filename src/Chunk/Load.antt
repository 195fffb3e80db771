-- ===== src/Chunk/Load.antt =====
-- src/lundump.c. A chunk is read from a stream; an error ends the load with its reason. The depth of
-- nested calls is bounded by LUAI_MAXCCALLS, which is the fuel here. `luaG_checkcode`, of
-- src/ldebug.c, is a parameter. Allocation does not fail here.
use lunacy.Base.{
  ℕ, zero, suc, ◌*◌, ◌^◌, List, [], ◌∷◌, none, some, Bool, not, ◌==◌, ltb, if◌then◌else◌, length,
  take, same_bytes,
}
use lunacy.Stream.{Zio, read}
use lunacy.Chunk.{
  ByteString, StringRef, Constant, nil, boolean, number, string, LocVar, Proto, Protos, proto,
  no_protos, one_more, lua_tnil, lua_tboolean, lua_tnumber, lua_tstring, from_le, vector_from,
  header,
}

pub data LoadError : Type 0 where
  unexpected_end bad_integer bad_constant code_too_deep bad_code bad_header : LoadError

pub data Result (A : Type 0) : Type 0 where
  ok : A → Zio → Result A
  error : LoadError → Result A

abbrev pub Load : Type 0 → Type 0
Load A = Zio → Result A

abbrev pub on_result : {A B : Type 0} → (A → Load B) → Result A → Result B
on_result f (ok a z) = f a z
on_result f (error e) = error e

infixl 5 ◌>>=◌
abbrev pub ◌>>=◌ : {A B : Type 0} → Load A → (A → Load B) → Load B
◌>>=◌ m f z = on_result f (m z)

abbrev pub ret : {A : Type 0} → A → Load A
ret a z = ok a z

abbrev pub throw : {A : Type 0} → LoadError → Load A
throw e z = error e

abbrev pub require : {A : Type 0} → Bool → LoadError → A → Load A
require c e a z = if c then ok a z else error e

unfoldable pub load_block : ℕ → Load ByteString
load_block n z =
    let t = read z n in if t.missing == 0 then ok t.bytes t.rest else error unexpected_end

-- The byte. Its callers compare it with small numbers or cast it back to `lu_byte`, so the sign of
-- C's `char` does not show.
unfoldable pub load_char : Load ℕ
load_char = do b ← load_block 1; ret (from_le b)

unfoldable pub load_int : Load ℕ
load_int = do b ← load_block 4; require (ltb (from_le b) (2 ^ 31)) bad_integer (from_le b)

unfoldable pub load_number : Load ℕ
load_number = do b ← load_block 8; ret (from_le b)

unfoldable pub load_size : Load ℕ
load_size = do b ← load_block 8; ret (from_le b)

-- The last byte, the ending 0, is left off.
unfoldable pub load_text : ℕ → Load StringRef
load_text zero = ret none
load_text (suc size) = do b ← load_block (suc size); ret (some (take size b))

unfoldable pub load_string : Load StringRef
load_string = do size ← load_size; load_text size

-- An array of `n` integers of `w` bytes, in one block.
unfoldable pub load_array : ℕ → ℕ → Load (List ℕ)
load_array w n = do b ← load_block (n * w); ret (vector_from w n b)

unfoldable pub load_vector : ℕ → Load (List ℕ)
load_vector w = do n ← load_int; load_array w n

unfoldable pub repeat : {A : Type 0} → ℕ → Load A → Load (List A)
repeat zero m = ret []
repeat (suc n) m = do x ← m; xs ← repeat n m; ret (x ∷ xs)

unfoldable pub constant_of : ℕ → Load Constant
constant_of t =
    if t == lua_tnil
    then ret nil
    else if t == lua_tboolean
    then (do c ← load_char; ret (boolean (not (c == 0))))
    else if t == lua_tnumber
    then (do n ← load_number; ret (number n))
    else if t == lua_tstring
    then (do s ← load_string; ret (string s))
    else throw bad_constant

unfoldable pub load_constant : Load Constant
load_constant = do t ← load_char; constant_of t

unfoldable pub load_locvar : Load LocVar
load_locvar = do
  varname ← load_string
  startpc ← load_int
  endpc ← load_int
  ret (record { varname = varname; startpc = startpc; endpc = endpc })

-- What `LoadDebug` fills in.
pub record Debug : Type 0 where
  pub lineinfo : List ℕ
  pub locvars : List LocVar
  pub upvalues : List StringRef

unfoldable pub load_debug : Load Debug
load_debug = do
  lineinfo ← load_vector 4
  sizelocvars ← load_int
  locvars ← repeat sizelocvars load_locvar
  sizeupvalues ← load_int
  upvalues ← repeat sizeupvalues load_string
  ret (record { lineinfo = lineinfo; locvars = locvars; upvalues = upvalues })

unfoldable pub repeat_protos : ℕ → Load Proto → Load Protos
repeat_protos zero m = ret no_protos
repeat_protos (suc n) m = do f ← m; fs ← repeat_protos n m; ret (one_more f fs)

abbrev pub or_parent : StringRef → StringRef → StringRef
or_parent none p = p
or_parent (some s) p = some s

unfoldable pub load_header : Load (Unit {0})
load_header = do s ← load_block (length header); require (same_bytes header s) bad_header tt

-- The name given to the source of a chunk that has none is "=?".
abbrev pub unknown_source : StringRef
unknown_source = some (b'=' ∷ b'?' ∷ [])

module _ (check : Proto → Bool) where
  -- `left` is LUAI_MAXCCALLS less the calls that are under way.
  unfoldable pub load_function : (left : ℕ) → StringRef → Load Proto
  load_function zero p = throw code_too_deep
  load_function (suc left) p = do
    own ← load_string
    let source = or_parent own p
    linedefined ← load_int
    lastlinedefined ← load_int
    nups ← load_char
    numparams ← load_char
    is_vararg ← load_char
    maxstacksize ← load_char
    code ← load_vector 4
    sizek ← load_int
    k ← repeat sizek load_constant
    sizep ← load_int
    fs ← repeat_protos sizep (load_function left source)
    debug ← load_debug
    let f =
        proto
          (record {
            source = source;
            linedefined = linedefined;
            lastlinedefined = lastlinedefined;
            nups = nups;
            numparams = numparams;
            is_vararg = is_vararg;
            maxstacksize = maxstacksize;
            code = code;
            k = k;
            lineinfo = debug.lineinfo;
            locvars = debug.locvars;
            upvalues = debug.upvalues;
          })
          fs
    require (check f) bad_code f

  unfoldable pub undump : (left : ℕ) → Load Proto
  undump left = do h ← load_header; load_function left unknown_source
