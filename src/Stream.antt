-- ===== src/Stream.antt =====
-- src/lzio.c and the macro `zgetc` of src/lzio.h: a buffered input stream over a reader. The reader
-- is a callback; here it is the list of the blocks that its next calls return. An empty block and
-- the end of the list are its end of stream (`size == 0` or NULL).
pub mod Read
use lunacy.Base.{
  ℕ, zero, suc, ◌+◌, ◌-◌, ◌≤◌, List, [], ◌∷◌, ◌++◌, Option, none, some, Bool, leb, if◌then◌else◌,
  length, take, drop, min,
}

-- `p` holds the `n` bytes of the current block that are unread.
pub record Zio : Type 0 where
  pub p : List ℕ
  pub reader : List (List ℕ)

unfoldable pub init : List (List ℕ) → Zio
init reader = record { p = []; reader = reader }

-- A byte or EOZ, and the stream after it.
abbrev pub Byte : Type 0
Byte = Option ℕ × Zio

unfoldable pub fill : List (List ℕ) → Byte
fill [] = (none, record { p = []; reader = [] })
fill ([] ∷ bs) = (none, record { p = []; reader = bs })
fill ((c ∷ b) ∷ bs) = (some c, record { p = b; reader = bs })

-- `luaZ_fill` is called with no unread byte.
getc_from : List ℕ → List (List ℕ) → Byte
unfolding fill
getc_from [] r = fill r
getc_from (c ∷ b) r = (some c, record { p = b; reader = r })

unfoldable pub getc : Zio → Byte
unfolding getc_from
getc z = getc_from z.p z.reader

-- `luaZ_lookahead`: the next byte, which stays unread.
put_back : Byte → Byte
put_back (none, z) = (none, z)
put_back (some c, z) = (some c, record z { p = c ∷ z.p })

lookahead_from : List ℕ → List (List ℕ) → Byte
unfolding fill put_back
lookahead_from [] r = put_back (fill r)
lookahead_from (c ∷ b) r = (some c, record { p = c ∷ b; reader = r })

unfoldable pub lookahead : Zio → Byte
unfolding lookahead_from
lookahead z = lookahead_from z.p z.reader

-- The bytes copied to the caller, the number of missing ones, and the stream.
pub record Taken : Type 0 where
  pub bytes : List ℕ
  pub missing : ℕ
  pub rest : Zio

prepend : List ℕ → Taken → Taken
prepend b t = record t { bytes = b ++ t.bytes }

-- `luaZ_read`: every round copies at least one of the `n` bytes, so `n` rounds are enough.
read_rounds : ℕ → ℕ → Zio → Taken
unfolding prepend
read_rounds fuel zero z = record { bytes = []; missing = 0; rest = z }
read_rounds zero (suc n) z = record { bytes = []; missing = suc n; rest = z }
read_rounds (suc fuel) (suc n) z =
    let r = lookahead z in
    elim r.0 [
      | none ↦ record { bytes = []; missing = suc n; rest = r.1 }
      | some c ↦
          let z' = r.1 in
          let m = if leb (suc n) (length z'.p) then suc n else length z'.p in
          prepend (take m z'.p) (read_rounds fuel (suc n - m) (record z' { p = drop m z'.p }))
    ]

unfoldable pub read : Zio → ℕ → Taken
unfolding read_rounds lookahead
read z n = read_rounds n n z
