-- ===== src/Chunk/Errors.antt =====
-- What goes wrong at either end: a writer that fails (src/ldump.c), and a stream that does not begin
-- with the header (src/lundump.c).
use lunacy.Base.{
  ℕ, ◌≤◌, ◌<◌, ◌≡◌, ◌≢◌, refl, sym, ap, arith, List, [], ◌∷◌, none, some, Bool, false, length, take,
  same_bytes, same_bytes→eq, Bool-cases, inl, inr,
}
use lunacy.Stream.{Zio, read}
use lunacy.Stream.Read.{content, read-IsRead}
use lunacy.Chunk.{
  ByteString, StringRef, Constant, nil, boolean, number, string, LocVar, Fields, Proto, Protos,
  proto, no_protos, one_more, header,
}
use lunacy.Chunk.Dump.{
  DumpState, dump_block, dump_char, dump_int, dump_number, dump_size, dump_vector, dump_string,
  dump_each, dump_constant, dump_locvar, dump_debug, dump_function, dump_functions,
}
use lunacy.Chunk.Load.{ok, error, load_block, load_header, undump, unexpected_end, bad_header}

module _ {S : Type 0} (writer : ByteString → S → ℕ × S) (d : DumpState S)
    (failed : d.status ≢ 0) where
  idle-block : (bs : ByteString) → dump_block writer bs d ≡ d
  unfolding dump_block
  idle-block bs = ground arith

  idle-vector : (w : ℕ) (xs : List ℕ) → dump_vector writer w xs d ≡ d
  unfolding dump_vector dump_int
  idle-vector w xs = simp idle-block

  idle-string : (r : StringRef) → dump_string writer r d ≡ d
  unfolding dump_string dump_size
  idle-string none = idle-block _
  idle-string (some s) = simp idle-block

  idle-constant : (c : Constant) → dump_constant writer c d ≡ d
  unfolding dump_constant dump_char dump_number
  idle-constant nil = simp idle-block
  idle-constant (boolean b) = simp idle-block
  idle-constant (number n) = simp idle-block
  idle-constant (string s) = simp (idle-block, idle-string)

  idle-locvar : (v : LocVar) → dump_locvar writer v d ≡ d
  unfolding dump_locvar dump_int
  idle-locvar v = simp (idle-block, idle-string)

  idle-each :
      {A : Type 0} (op : A → DumpState S → DumpState S)
      → ((x : A) → op x d ≡ d)
      → (xs : List A) → dump_each writer op xs d ≡ d
  unfolding dump_each
  idle-each op one [] = refl
  idle-each op one (x ∷ xs) = rw (one x) (idle-each op one xs)

  idle-debug : (strip : Bool) (f : Fields) → dump_debug writer strip f d ≡ d
  unfolding dump_debug dump_int
  idle-debug strip f = simp (
    idle-block,
    idle-vector,
    idle-each (dump_locvar writer) idle-locvar,
    idle-each (dump_string writer) idle-string,
  )

  mutual
    unfolding dump_function dump_functions dump_int dump_char

    idle-function :
        (strip : Bool) (f : Proto) (p : StringRef) → dump_function writer strip f p d ≡ d
    idle-function strip (proto f fs) p = simp (
      idle-block,
      idle-vector,
      idle-string,
      idle-each (dump_constant writer) idle-constant,
      idle-functions strip fs f.source,
      idle-debug,
    )

    idle-functions :
        (strip : Bool) (fs : Protos) (p : StringRef) → dump_functions writer strip fs p d ≡ d
    idle-functions strip no_protos p = refl
    idle-functions strip (one_more f fs) p =
        rw (idle-function strip f p) (idle-functions strip fs p)

-- After the writer has returned a status that is not 0, dumping a function calls it no more: the
-- status and the writer's data stay as they are.
pub dump_function_failed :
    {S : Type 0} (writer : ByteString → S → ℕ × S) (strip : Bool) (f : Proto) (p : StringRef)
    (d : DumpState S)
    → d.status ≢ 0
    → dump_function writer strip f p d ≡ d
dump_function_failed writer strip f p d failed = idle-function writer d failed strip f p

block_short : (n : ℕ) (z : Zio) → length (content z) < n → load_block n z ≡ error unexpected_end
unfolding load_block
block_short n z h = ground (arith, (read-IsRead z n).missing)

block_full :
    (n : ℕ) (z : Zio)
    → n ≤ length (content z)
    → load_block n z ≡ ok (take n (content z)) (read z n).rest
unfolding load_block
block_full n z h =
    let r = read-IsRead z n in
    let e : (read z n).missing ≡ 0 = omega (arith, r.missing) in
    rw e (ap (λ (b : ByteString). ok b (read z n).rest) r.bytes)

unequal : (s t : ByteString) → t ≢ s → same_bytes s t ≡ false
unequal s t h = elim (Bool-cases (same_bytes s t)) [
  | inl same ↦ absurd (h (sym (same_bytes→eq s t same)))
  | inr differ ↦ differ
]

-- A stream of fewer than 12 bytes ends the load with "unexpected end".
pub undump_short :
    (check : Proto → Bool) (left : ℕ) (z : Zio)
    → length (content z) < 12
    → undump check left z ≡ error unexpected_end
unfolding undump load_header
undump_short check left z short = rw (block_short 12 z short)

-- A stream whose first 12 bytes are there and are not the header of this build ends the load with
-- "bad header".
pub undump_bad_header :
    (check : Proto → Bool) (left : ℕ) (z : Zio)
    → 12 ≤ length (content z)
    → take 12 (content z) ≢ header
    → undump check left z ≡ error bad_header
unfolding undump load_header
undump_bad_header check left z enough differs =
    rw (block_full 12 z enough, unequal header (take 12 (content z)) differs)
