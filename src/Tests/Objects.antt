-- ===== src/Tests/Objects.antt =====
-- Sizes, logarithms and chunk names (src/lobject.c), and the input stream (src/lzio.c).
use lunacy.Base.{ℕ, ◌*◌, ◌^◌, ◌≤◌, ◌<◌, ◌≡◌, refl, arith, List, [], ◌∷◌, length, ◌⊎◌}
use lunacy.Base.Int.{pos}
use lunacy.Object.{int2fb, fb2int, log2, chunkid}
use lunacy.Object.FloatByte.{fb2int-int2fb}
use lunacy.Object.ChunkId.{chunkid-lt}
use lunacy.Stream.{Zio, init, read}
use lunacy.Stream.Read.{IsRead, content, read-IsRead}

fb2int-int2fb_example :
    (1000 ≤ fb2int (int2fb 1000))
    × (8 * fb2int (int2fb 1000) ≤ 9 * 1000)
    × (fb2int (int2fb 1000) < 2 ^ 31)
    × ((fb2int (int2fb 1000) ≡ 1000) ⊎ (16 ≤ 1000))
fb2int-int2fb_example = fb2int-int2fb 1000 (omega arith)

fb2int_1000 : fb2int (int2fb 1000) ≡ 1024
unfolding int2fb fb2int
fb2int_1000 = refl

log2_1000 : log2 1000 ≡ pos 9
unfolding log2
log2_1000 = refl

-- "@a/b.lua"
abbrev file_name : List ℕ
file_name = b'@' ∷ b'a' ∷ b'/' ∷ b'b' ∷ b'.' ∷ b'l' ∷ b'u' ∷ b'a' ∷ []

chunkid-lt_example : length (chunkid file_name 60) < 60
chunkid-lt_example = chunkid-lt file_name 60 (omega arith) (omega arith)

abbrev three_blocks : Zio
three_blocks = init ((1 ∷ 2 ∷ []) ∷ (3 ∷ []) ∷ (4 ∷ 5 ∷ []) ∷ [])

read-IsRead_example : IsRead 4 (content three_blocks) (read three_blocks 4)
read-IsRead_example = read-IsRead three_blocks 4
