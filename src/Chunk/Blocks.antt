-- ===== src/Chunk/Blocks.antt =====
-- The blocks that src/ldump.c hands to its writer, against the layout of Chunk/Layout.
use lunacy.Base.{
  ℕ, suc, ◌+◌, ◌≡◌, refl, sym, ap, ◌∙◌, List, [], ◌∷◌, ◌++◌, append_assoc, append-nil, none, some,
  Bool, true, false, u8, length, map, if◌then◌else◌, ◌||◌,
}
use lunacy.Chunk.{
  ByteString, StringRef, same_ref, Constant, nil, boolean, number, string, LocVar, Fields, Proto,
  Protos, proto, no_protos, one_more, count_protos, header, le_bytes, vector_bytes,
}
use lunacy.Chunk.Dump.{
  DumpState, dump_block, dump_char, dump_int, dump_number, dump_size, dump_vector, dump_string,
  dump_each, dump_constant, dump_locvar, dump_debug, dump_function, dump_functions, dump,
  written_source,
}
use lunacy.Chunk.Layout.{
  without_debug, all_without_debug, joined, one_byte, four_bytes, eight_bytes, text_layout, counted,
  constant_layout, variable_layout, own_source, how_many, function_layout, functions_layout,
  chunk_layout,
}

joined-append : (bs cs : List ByteString) → joined (bs ++ cs) ≡ joined bs ++ joined cs
joined-append [] cs = refl
joined-append (b ∷ bs) cs = rw (joined-append bs cs) (sym (append_assoc b (joined bs) (joined cs)))

vector_bytes-joined : (xs : List ℕ) → vector_bytes 4 xs ≡ joined (map four_bytes xs)
unfolding vector_bytes
vector_bytes-joined [] = refl
vector_bytes-joined (x ∷ xs) = ap (λ (l : ByteString). le_bytes 4 x ++ l) (vector_bytes-joined xs)

count_protos-how_many : (fs : Protos) → count_protos fs ≡ how_many fs
count_protos-how_many no_protos = refl
count_protos-how_many (one_more f fs) = ap suc (count_protos-how_many fs)

unstripped_source : (source p : StringRef) → written_source false source p ≡ own_source source p
unstripped_source source p = go (same_ref source p)
  where
    go : (b : Bool) → (if b || false then none else source) ≡ (if b then none else source)
    go true = refl
    go false = refl

stripped_source : (source p : StringRef) → written_source true source p ≡ none
stripped_source source p = go (same_ref source p)
  where
    go : (b : Bool) → (if b || true then none else source) ≡ none
    go true = refl
    go false = refl

module _ {S : Type 0} (writer : ByteString → S → ℕ × S) where
  abbrev pub accepted : S → DumpState S
  accepted u = record { status = 0; user = u }

  -- The data of the writer after some blocks.
  abbrev pub delivered : List ByteString → S → S
  delivered [] u = u
  delivered (b ∷ bs) u = delivered bs (writer b u).1

  delivered-append :
      (bs cs : List ByteString) (u : S) → delivered (bs ++ cs) u ≡ delivered cs (delivered bs u)
  delivered-append [] cs u = refl
  delivered-append (b ∷ bs) cs u = delivered-append bs cs (writer b u).1

  count-all_without_debug : (fs : Protos) → count_protos (all_without_debug fs) ≡ count_protos fs
  unfolding all_without_debug
  count-all_without_debug no_protos = refl
  count-all_without_debug (one_more f fs) = ap suc (count-all_without_debug fs)

  -- To strip is to write the function without its debug information.
  mutual
    unfolding dump_function dump_functions dump_debug without_debug all_without_debug same_ref

    function-stripped :
        (f : Proto) (p : StringRef) (d : DumpState S)
        → dump_function writer true f p d ≡ dump_function writer false (without_debug f) none d
    function-stripped (proto f fs) p d =
        rw (stripped_source f.source p, count-all_without_debug fs)
          (ap (dump_debug writer true f) (functions-stripped fs f.source _))

    functions-stripped :
        (fs : Protos) (p : StringRef) (d : DumpState S)
        → dump_functions writer true fs p d
          ≡ dump_functions writer false (all_without_debug fs) none d
    functions-stripped no_protos p d = refl
    functions-stripped (one_more f fs) p d =
        functions-stripped fs p (dump_function writer true f p d)
        ∙ ap (dump_functions writer false (all_without_debug fs) none) (function-stripped f p d)

  module _ (accepts : (b : ByteString) (u : S) → (writer b u).0 ≡ 0) where
    -- The operation hands over these bytes in some blocks.
    record Emits (op : DumpState S → DumpState S) (bytes : ByteString) : Type 0 where
      blocks : List ByteString
      whole : joined blocks ≡ bytes
      handed : (u : S) → op (accepted u) ≡ accepted (delivered blocks u)

    Emits-block : (b : ByteString) → Emits (dump_block writer b) b
    unfolding dump_block
    Emits-block b = record {
      blocks = b ∷ [];
      whole = append-nil b;
      handed = λ u. ap (λ n. record { status = n; user = (writer b u).1 }) (accepts b u);
    }

    Emits-then :
        {op op' : DumpState S → DumpState S} {bytes bytes' : ByteString}
        → Emits op bytes
        → Emits op' bytes'
        → Emits (λ d. op' (op d)) (bytes ++ bytes')
    Emits-then {op = op} {op' = op'} {bytes = bytes} e e' = record {
      blocks = e.blocks ++ e'.blocks;
      whole =
          joined-append e.blocks e'.blocks
          ∙ (ap (λ (l : ByteString). l ++ joined e'.blocks) e.whole
              ∙ ap (λ (l : ByteString). bytes ++ l) e'.whole);
      handed = λ u.
          ap op' (e.handed u)
          ∙ (e'.handed (delivered e.blocks u)
              ∙ ap (λ x. accepted x) (sym (delivered-append e.blocks e'.blocks u)));
    }

    Emits-same :
        {op : DumpState S → DumpState S} {bytes bytes' : ByteString}
        → Emits op bytes
        → bytes ≡ bytes'
        → Emits op bytes'
    Emits-same e same = record { blocks = e.blocks; whole = e.whole ∙ same; handed = e.handed }

    Emits-nothing : Emits (λ d. d) []
    Emits-nothing = record { blocks = []; whole = refl; handed = λ u. refl }

    char-Emits : (x : ℕ) → Emits (dump_char writer x) (one_byte x)
    unfolding dump_char
    char-Emits x = Emits-block (u8 x ∷ [])

    int-Emits : (x : ℕ) → Emits (dump_int writer x) (four_bytes x)
    unfolding dump_int
    int-Emits x = Emits-block (four_bytes x)

    string-Emits : (r : StringRef) → Emits (dump_string writer r) (text_layout r)
    unfolding dump_string dump_size text_layout
    string-Emits none = Emits-block (eight_bytes 0)
    string-Emits (some s) =
        Emits-same
          (Emits-then (Emits-block (eight_bytes (length s + 1))) (Emits-block (s ++ 0 ∷ []))) refl

    constant-Emits : (c : Constant) → Emits (dump_constant writer c) (constant_layout c)
    unfolding dump_constant dump_number constant_layout
    constant-Emits nil = char-Emits 0
    constant-Emits (boolean true) = Emits-then (char-Emits 1) (char-Emits 1)
    constant-Emits (boolean false) = Emits-then (char-Emits 1) (char-Emits 0)
    constant-Emits (number n) = Emits-then (char-Emits 3) (Emits-block (eight_bytes n))
    constant-Emits (string s) = Emits-then (char-Emits 4) (string-Emits s)

    locvar-Emits : (v : LocVar) → Emits (dump_locvar writer v) (variable_layout v)
    unfolding dump_locvar variable_layout
    locvar-Emits v =
        Emits-same
          (Emits-then (Emits-then (string-Emits v.varname) (int-Emits v.startpc))
            (int-Emits v.endpc))
          (simp (append_assoc, append-nil))

    each-Emits :
        {A : Type 0} (op : A → DumpState S → DumpState S) (item : A → ByteString)
        → ((x : A) → Emits (op x) (item x))
        → (xs : List A) → Emits (dump_each writer op xs) (joined (map item xs))
    unfolding dump_each
    each-Emits op item one [] = Emits-nothing
    each-Emits op item one (x ∷ xs) = Emits-then (one x) (each-Emits op item one xs)

    vector-Emits : (xs : List ℕ) → Emits (dump_vector writer 4 xs) (counted four_bytes xs)
    unfolding dump_vector counted
    vector-Emits xs =
        Emits-same (Emits-then (int-Emits (length xs)) (Emits-block (vector_bytes 4 xs)))
          (ap (λ (l : ByteString). four_bytes (length xs) ++ l) (vector_bytes-joined xs))

    counted-Emits :
        {A : Type 0} (op : A → DumpState S → DumpState S) (item : A → ByteString)
        → ((x : A) → Emits (op x) (item x))
        → (xs : List A)
        → Emits (λ d. dump_each writer op xs (dump_int writer (length xs) d)) (counted item xs)
    unfolding counted
    counted-Emits op item one xs = Emits-then (int-Emits (length xs)) (each-Emits op item one xs)

    debug-Emits :
        (f : Fields)
        → Emits (dump_debug writer false f) (
            counted four_bytes f.lineinfo
            ++ (counted variable_layout f.locvars ++ counted text_layout f.upvalues))
    unfolding dump_debug
    debug-Emits f =
        Emits-same
          (Emits-then
            (Emits-then (vector-Emits f.lineinfo)
              (counted-Emits (dump_locvar writer) variable_layout locvar-Emits f.locvars))
            (counted-Emits (dump_string writer) text_layout string-Emits f.upvalues))
          (simp append_assoc)

    mutual
      unfolding dump_function function_layout dump_functions functions_layout

      function-Emits :
          (f : Proto) (p : StringRef) → Emits (dump_function writer false f p) (function_layout f p)
      function-Emits (proto f fs) p =
          let source = string-Emits (written_source false f.source p) in
          let lines =
            Emits-then (Emits-then source (int-Emits f.linedefined))
              (int-Emits f.lastlinedefined) in
          let counts =
            Emits-then
              (Emits-then
                (Emits-then (Emits-then lines (char-Emits f.nups)) (char-Emits f.numparams))
                (char-Emits f.is_vararg))
              (char-Emits f.maxstacksize) in
          let code = Emits-then counts (vector-Emits f.code) in
          let constants =
            Emits-then code
              (counted-Emits (dump_constant writer) constant_layout constant-Emits f.k) in
          let inner =
            Emits-then (Emits-then constants (int-Emits (count_protos fs)))
              (functions-Emits fs f.source) in
          Emits-same (Emits-then inner (debug-Emits f)) (
            rw (unstripped_source f.source p, count_protos-how_many fs)
              (simp (append_assoc, append-nil)))

      functions-Emits :
          (fs : Protos) (p : StringRef)
          → Emits (dump_functions writer false fs p) (functions_layout fs p)
      functions-Emits no_protos p = Emits-nothing
      functions-Emits (one_more f fs) p = Emits-then (function-Emits f p) (functions-Emits fs p)

    -- A writer that accepts every block gets the bytes of the chunk's layout, in order, in some blocks,
    -- and the dump ends with status 0; stripped, they are those of the function without its debug
    -- information.
    pub dump-chunk_layout :
        (strip : Bool) (f : Proto) (u : S)
        → (blocks : List ByteString) × (joined blocks ≡ chunk_layout strip f)
          × (dump writer strip f u ≡ accepted (delivered blocks u))
    unfolding dump chunk_layout
    dump-chunk_layout false f u =
        let e = Emits-then (Emits-block header) (function-Emits f none) in
        (e.blocks, e.whole, e.handed u)
    dump-chunk_layout true f u =
        let e = Emits-then (Emits-block header) (function-Emits (without_debug f) none) in
        (e.blocks, e.whole, function-stripped f none _ ∙ e.handed u)
