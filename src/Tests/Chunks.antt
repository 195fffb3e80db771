-- ===== src/Tests/Chunks.antt =====
-- A function with a nested function, dumped and loaded (src/ldump.c, src/lundump.c).
use lunacy.Base.{
  ℕ, ◌+◌, suc, ◌≡◌, refl, arith, List, [], ◌∷◌, ◌++◌, none, some, Bool, true, false, drop,
}
use lunacy.Stream.{Zio, init}
use lunacy.Stream.Read.{content, until_end}
use lunacy.Chunk.{
  ByteString, Fields, Proto, proto, no_protos, one_more, nil, boolean, number, string, same_ref,
  le_bytes, vector_bytes,
}
use lunacy.Chunk.Dump.{
  DumpState, dump, dump_function, dump_functions, dump_block, dump_char, dump_int, dump_number,
  dump_size, dump_vector, dump_string, dump_each, dump_constant, dump_locvar, dump_debug,
}
use lunacy.Chunk.Load.{ok, error, undump, unknown_source, unexpected_end, bad_header}
use lunacy.Chunk.Writes.{collect}
use lunacy.Chunk.Layout.{joined, chunk_layout}
use lunacy.Chunk.Blocks.{accepted, delivered, dump-chunk_layout}
use lunacy.Chunk.Loaded.{Loadable, loadable, none_left, and_more, loaded, FieldsFit}
use lunacy.Chunk.RoundTrip.{undump-dump}
use lunacy.Chunk.Checked.{Every, undump-Every}
use lunacy.Chunk.Errors.{dump_function_failed, undump_short, undump_bad_header}

abbrev inner : Fields
inner = record {
  source = none;
  linedefined = 2;
  lastlinedefined = 4;
  nups = 0;
  numparams = 1;
  is_vararg = 0;
  maxstacksize = 2;
  code = 0x0080_001e ∷ [];
  k = nil ∷ boolean true ∷ [];
  lineinfo = 3 ∷ [];
  locvars = record { varname = some (b'x' ∷ []); startpc = 0; endpc = 1 } ∷ [];
  upvalues = [];
}

abbrev outer : Fields
outer = record inner {
  source = some (b'@' ∷ b'm' ∷ []);
  k = number 7 ∷ string (some (b's' ∷ [])) ∷ [];
}

abbrev chunk : Proto
chunk = proto outer (one_more (proto inner no_protos) no_protos)

abbrev accept : Proto → Bool
accept f = true

inner-Fits : FieldsFit inner
inner-Fits = omega arith

outer-Fits : FieldsFit outer
outer-Fits = omega arith

chunk-Loadable : Loadable accept false 200 unknown_source chunk
chunk-Loadable =
    loadable outer-Fits (omega arith)
      (and_more (loadable inner-Fits (omega arith) none_left refl) none_left) refl

-- A writer that counts its blocks beside their bytes.
abbrev counting : ByteString → ℕ × ByteString → ℕ × (ℕ × ByteString)
counting b (n, s) = (0, (suc n, s ++ b))

dump-chunk_layout_example :
    (blocks : List ByteString) × (joined blocks ≡ chunk_layout true chunk)
    × (dump counting true chunk (0, []) ≡ accepted counting (delivered counting blocks (0, [])))
dump-chunk_layout_example = dump-chunk_layout counting (λ b u. refl) true chunk (0, [])

abbrev chunk_bytes : ByteString
chunk_bytes = (dump collect false chunk []).user

-- The chunk as the reader cuts it, with a byte behind it.
abbrev cut_up : List ByteString
cut_up = (27 ∷ []) ∷ (drop 1 chunk_bytes ++ 99 ∷ []) ∷ []

until_end-cut_up : until_end cut_up ≡ chunk_bytes ++ 99 ∷ []
unfolding dump dump_block dump_function dump_functions dump_string dump_size dump_int dump_char
    dump_vector dump_each dump_constant dump_number dump_locvar dump_debug le_bytes vector_bytes
    same_ref
until_end-cut_up = refl

undump-dump_example :
    (z : Zio) × (undump accept 200 (init cut_up) ≡ ok (loaded false unknown_source chunk) z)
    × (content z ≡ 99 ∷ [])
undump-dump_example =
    undump-dump accept false chunk 200 cut_up (99 ∷ []) chunk-Loadable until_end-cut_up

refuse : ByteString → ℕ → ℕ × ℕ
refuse b n = (1, n + 1)

dump_function_failed_example :
    let d : DumpState ℕ = record { status = 1; user = 1 } in
    dump_function refuse false chunk none d ≡ d
dump_function_failed_example =
    dump_function_failed refuse false chunk none (record { status = 1; user = 1 }) (omega arith)

abbrev not_a_chunk : Zio
not_a_chunk = record {
  p = 1 ∷ 2 ∷ 3 ∷ 4 ∷ 5 ∷ 6 ∷ 7 ∷ [];
  reader = (8 ∷ 9 ∷ 10 ∷ 11 ∷ 12 ∷ 13 ∷ []) ∷ [];
}

undump_short_example :
    undump accept 200 (record { p = 27 ∷ []; reader = [] }) ≡ error unexpected_end
undump_short_example = undump_short accept 200 (record { p = 27 ∷ []; reader = [] }) (omega arith)

undump_bad_header_example : undump accept 200 not_a_chunk ≡ error bad_header
undump_bad_header_example = undump_bad_header accept 200 not_a_chunk (omega arith) (ground arith)

chunk_loads :
    (z : Zio) × (undump accept 200 (init cut_up) ≡ ok (loaded false unknown_source chunk) z)
chunk_loads =
    let r = undump-dump accept false chunk 200 cut_up (99 ∷ []) chunk-Loadable until_end-cut_up in
    (r.0, r.1)

undump-Every_example : Every (λ g. accept g ≡ true) (loaded false unknown_source chunk)
undump-Every_example =
    undump-Every accept 200 (init cut_up) chunk_loads.0 (loaded false unknown_source chunk)
      chunk_loads.1
