-- ===== src/Chunk/RoundTrip.antt =====
-- Dumping a function and loading it again (src/ldump.c, src/lundump.c).
use lunacy.Base.{
  ℕ, zero, suc, ◌^◌, ◌<◌, ◌≡◌, refl, sym, ap, ◌∙◌, arith, List, [], ◌++◌, none, some, Bool, true,
  false, ◌||◌, if◌then◌else◌, length, All, same_bytes→eq, same_bytes_refl, Bool-cases, inl, inr,
}
use lunacy.Stream.{Zio, init}
use lunacy.Stream.Read.{content, until_end}
use lunacy.Chunk.{
  ByteString, StringRef, same_ref, Fields, Proto, Protos, proto, no_protos, one_more, count_protos,
  header,
}
use lunacy.Chunk.Dump.{DumpState, kept, written_source, dump}
use lunacy.Chunk.Format.{
  string_format, constant_format, locvar_format, debug_format, function_format, functions_format,
  chunk_format,
}
use lunacy.Chunk.Load.{
  ok, Debug, load_debug, load_function, repeat_protos, load_header, undump, unknown_source,
  or_parent, bad_code, bad_header,
}
use lunacy.Chunk.Reads.{
  Reads, Reads-ret, Reads-require, Reads-bind, Reads-last, Reads-map, Reads-block, Reads-char,
  Reads-int, Reads-string, Reads-vector, Reads-repeat, Reads-constant, Reads-locvar, StringFits,
  ConstantFits, LocVarFits,
}
use lunacy.Chunk.Loaded.{
  FieldsFit, loaded_source, loaded, loaded_all, Loadable, loadable, LoadableAll, and_more,
}
use lunacy.Chunk.Writes.{collect, dump-chunk_format}

-- The parent's source as the writer and as the reader know it.
abbrev Agree : Bool → StringRef → StringRef → Type 0
Agree strip dp lp = strip ≡ false → or_parent dp lp ≡ lp

same_ref→eq : (s t : StringRef) → same_ref s t ≡ true → s ≡ t
unfolding same_ref
same_ref→eq none none h = refl
same_ref→eq none (some t) h = cc
same_ref→eq (some s) none h = cc
same_ref→eq (some s) (some t) h = ap some (same_bytes→eq s t h)

or_parent_twice : (s p : StringRef) → or_parent s (or_parent s p) ≡ or_parent s p
or_parent_twice none p = refl
or_parent_twice (some s) p = refl

Agree-source : (strip : Bool) (s p : StringRef) → Agree strip s (loaded_source strip s p)
Agree-source true s p h = cc
Agree-source false s p h = or_parent_twice s p

own :
    (strip : Bool) (s dp lp : StringRef)
    → Agree strip dp lp
    → s ≡ dp
    → lp ≡ loaded_source strip s lp
own true s dp lp agree e = refl
own false s dp lp agree e = rw e (sym (agree refl))

other :
    (strip : Bool) (s lp : StringRef)
    → or_parent (if strip then none else s) lp ≡ loaded_source strip s lp
other true s lp = refl
other false s lp = refl

source_lem :
    (strip : Bool) (s dp lp : StringRef)
    → Agree strip dp lp
    → or_parent (written_source strip s dp) lp ≡ loaded_source strip s lp
source_lem strip s dp lp agree = elim (Bool-cases (same_ref s dp)) [
  | inl same ↦ rw same (own strip s dp lp agree (same_ref→eq s dp same))
  | inr differ ↦ rw differ (other strip s lp)
]

written-StringFits :
    (strip : Bool) (s dp : StringRef) → StringFits s → StringFits (written_source strip s dp)
written-StringFits strip s dp h = elim (Bool-cases (same_ref s dp || strip)) [
  | inl drop_it ↦ rw drop_it tt
  | inr keep_it ↦ rw keep_it h
]

kept-All :
    {A : Type 0} (P : A → Type 0) (strip : Bool) (xs : List A) → All P xs → All P (kept strip xs)
kept-All P true xs h = tt
kept-All P false xs h = h

length-kept :
    {A : Type 0} (strip : Bool) (xs : List A) → length xs < 2 ^ 31 → length (kept strip xs) < 2 ^ 31
length-kept true xs h = omega arith
length-kept false xs h = h

module _ (check : Proto → Bool) (strip : Bool) where
  abbrev kept_debug : Fields → Debug
  kept_debug f = record {
    lineinfo = kept strip f.lineinfo;
    locvars = kept strip f.locvars;
    upvalues = kept strip f.upvalues;
  }

  Reads-debug : (f : Fields) → FieldsFit f → Reads load_debug (kept_debug f) (debug_format strip f)
  unfolding load_debug debug_format
  Reads-debug f h =
      let lines = kept strip f.lineinfo in
      let vars = kept strip f.locvars in
      let names = kept strip f.upvalues in
      let lines_fit = kept-All _ strip f.lineinfo h.lineinfo in
      let vars_fit = kept-All _ strip f.locvars h.locvars in
      let names_fit = kept-All _ strip f.upvalues h.upvalues in
      Reads-bind _ (Reads-vector 4 lines lines_fit (length-kept strip f.lineinfo h.sizelineinfo)) (
        Reads-bind _ (Reads-int (length vars) (length-kept strip f.locvars h.sizelocvars)) (
          Reads-bind _ (Reads-repeat _ locvar_format LocVarFits Reads-locvar vars vars_fit) (
            Reads-bind _ (Reads-int (length names) (length-kept strip f.upvalues h.sizeupvalues)) (
              Reads-map (λ l. record { lineinfo = lines; locvars = vars; upvalues = l })
                (Reads-repeat _ string_format StringFits Reads-string names names_fit)))))

  mutual
    unfolding load_function repeat_protos function_format functions_format loaded loaded_all

    function-Reads :
        (f : Proto) (left : ℕ) (dp lp : StringRef)
        → Agree strip dp lp
        → Loadable check strip left lp f
        → Reads (load_function check left lp) (loaded strip lp f) (function_format strip f dp)
    function-Reads (proto f fs) zero dp lp agree h = elim h [ ]
    function-Reads (proto f fs) (suc left) dp lp agree (loadable h few inner good) =
        let sources =
          functions-Reads fs left f.source (loaded_source strip f.source lp)
            (Agree-source strip f.source lp) inner in
        Reads-bind _
          (Reads-string (written_source strip f.source dp)
            (written-StringFits strip f.source dp h.source))
          (rw (source_lem strip f.source dp lp agree) (
            Reads-bind _ (Reads-int f.linedefined h.linedefined) (
              Reads-bind _ (Reads-int f.lastlinedefined h.lastlinedefined) (
                Reads-bind _ (Reads-char f.nups h.nups) (
                  Reads-bind _ (Reads-char f.numparams h.numparams) (
                    Reads-bind _ (Reads-char f.is_vararg h.is_vararg) (
                      Reads-bind _ (Reads-char f.maxstacksize h.maxstacksize) (
                        Reads-bind _ (Reads-vector 4 f.code h.code h.sizecode) (
                          Reads-bind _ (Reads-int (length f.k) h.sizek) (
                            Reads-bind _
                              (Reads-repeat _ constant_format ConstantFits Reads-constant f.k h.k)
                              (Reads-bind _ (Reads-int (count_protos fs) few) (
                                Reads-bind _ sources (
                                  Reads-last _ (Reads-debug f h)
                                    (Reads-require _ bad_code _ good))))))))))))))

    functions-Reads :
        (fs : Protos) (left : ℕ) (dp lp : StringRef)
        → Agree strip dp lp
        → LoadableAll check strip left lp fs
        → Reads
            (repeat_protos (count_protos fs) (load_function check left lp))
            (loaded_all strip lp fs)
            (functions_format strip fs dp)
    functions-Reads no_protos left dp lp agree h = Reads-ret no_protos
    functions-Reads (one_more f fs) left dp lp agree (and_more h hs) =
        Reads-bind _ (function-Reads f left dp lp agree h)
          (Reads-map (λ l. one_more (loaded strip lp f) l) (functions-Reads fs left dp lp agree hs))

  Reads-header : Reads load_header tt header
  unfolding load_header
  Reads-header =
      Reads-last _ (Reads-block header 12 refl)
        (Reads-require _ bad_header tt (same_bytes_refl header))

  Reads-chunk :
      (f : Proto) (left : ℕ)
      → Loadable check strip left unknown_source f
      → Reads (undump check left) (loaded strip unknown_source f) (chunk_format strip f)
  unfolding undump chunk_format
  Reads-chunk f left h =
      Reads-bind _ Reads-header (function-Reads f left none unknown_source (λ e. refl) h)

-- The bytes that a dump hands to its writer, delivered by a reader in blocks of any size and with
-- anything behind them, load without an error, and what loads is the dumped function: with every
-- function's own source, or its parent's where it has none, and, if the dump was stripped, with no
-- source of its own and no debug information. It holds for functions whose fields have the ranges of
-- their C types, whose nesting is within the call limit, and which pass the bytecode check.
pub undump-dump :
    (check : Proto → Bool) (strip : Bool) (f : Proto) (left : ℕ) (blocks : List ByteString)
    (rest : ByteString)
    → Loadable check strip left unknown_source f
    → until_end blocks ≡ (dump collect strip f []).user ++ rest
    → (z : Zio) × (undump check left (init blocks) ≡ ok (loaded strip unknown_source f) z)
      × (content z ≡ rest)
unfolding init
undump-dump check strip f left blocks rest h delivered =
    let whole = ap (λ d. DumpState.user d) (dump-chunk_format strip f) in
    (Reads-chunk check strip f left h).at (init blocks) rest
      (delivered ∙ ap (λ (b : ByteString). b ++ rest) whole)
