-- ===== src/Object/ChunkId.antt =====
-- `luaO_chunkid` (src/lobject.c): the length of the name of a chunk.
use lunacy.Base.{
  ℕ, ◌+◌, ◌-◌, ◌^◌, ◌≤◌, ◌<◌, arith, List, ◌++◌, ltb, if◌then◌else◌, length, take, drop,
  length-append, length-take, length-drop,
}
use lunacy.Object.{chunkid, file_id, text_id, strcspn_newline, size_sub, dots, string_close}

file_id-lt :
    (name : List ℕ) (bufflen : ℕ)
    → 17 ≤ bufflen
    → bufflen < 2 ^ 64
    → length (file_id name bufflen) < bufflen
file_id-lt name bufflen h k = ground (
  arith,
  length-append dots (drop (length name - (bufflen - 8)) name),
  length-drop (length name - (bufflen - 8)) name,
)

abbrev cut : List ℕ → ℕ → List ℕ
cut source len = if ltb len (length source) then take len source ++ dots else source

length-cut : (source : List ℕ) (len : ℕ) → length (cut source len) ≤ len + 3
length-cut source len = ground (arith, length-append (take len source) dots, length-take len source)

text_id-lt :
    (source : List ℕ) (bufflen : ℕ)
    → 17 ≤ bufflen
    → bufflen < 2 ^ 64
    → length (text_id source bufflen) < bufflen
text_id-lt source bufflen h k =
    let room = size_sub bufflen 17 in
    let line = strcspn_newline source in
    let len = if ltb room line then room else line in
    let short : len ≤ bufflen - 17 = ground arith in
    omega (arith, length-append (cut source len) string_close, length-cut source len)

-- Whatever the source name, for a buffer of at least 17 bytes the identifier and its ending 0 fit.
pub chunkid-lt :
    (source : List ℕ) (bufflen : ℕ)
    → 17 ≤ bufflen
    → bufflen < 2 ^ 64
    → length (chunkid source bufflen) < bufflen
unfolding chunkid
chunkid-lt source bufflen h k = ground (
  arith,
  length-take (size_sub bufflen 1) (drop 1 source),
  file_id-lt (drop 1 source) bufflen h k,
  text_id-lt source bufflen h k,
)
