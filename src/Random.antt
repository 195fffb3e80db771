-- ===== src/Random.antt =====
-- The generator of src/lmathlib.c: RadioGatun[32], whose mill has 19 words and whose belt has 40,
-- and the functions that draw whole numbers from it. `rgf` does not set all of its array `A` before it
-- reads it: `junk` is what is there. The fractions of math.random are not here.
pub mod Mixing
pub mod Drawing
use lunacy.Base.{
  ℕ, zero, suc, ◌+◌, ◌-◌, ◌*◌, ◌%◌, Bool, List, [], ◌∷◌, bit_and, bit_or, bit_xor, not32, ◌<<<◌,
  ◌>>>◌, ◌==◌, if◌then◌else◌, get_or, set, replicate,
}

-- The arrays `rg_mill` and `rg_belt`.
pub record Rg : Type 0 where
  pub mill : List ℕ
  pub belt : List ℕ

abbrev pub at : List ℕ → ℕ → ℕ
at l i = get_or l i 0

-- `l[i]^=v`
abbrev pub xor_at : List ℕ → ℕ → ℕ → List ℕ
xor_at l i v = set l i (bit_xor (at l i) v)

-- `rgp(12)b[c+c%3*o]^=a[c+1]`, the `k` rounds from `c` on.
unfoldable pub belt_feed : ℕ → ℕ → List ℕ → List ℕ → List ℕ
belt_feed zero c a b = b
belt_feed (suc k) c a b = belt_feed k (suc c) a (xor_at b (c + c % 3 * 13) (at a (suc c)))

-- `x>>r|x<<(32-r)%32`
abbrev pub rotr : ℕ → ℕ → ℕ
rotr x r = bit_or (x >>> r) (x <<< ((32 - r) % 32))

-- The word of `A` for `c`, rotated by `r`.
unfoldable pub mill_word : ℕ → ℕ → List ℕ → ℕ
mill_word c r a =
    let y = c * 7 in
    rotr (bit_xor (at a (y % 19)) (bit_or (at a ((y + 1) % 19)) (not32 (at a ((y + 2) % 19))))) r

-- `rgp(m){r=(c+r)&31;...}`: each word is written twice.
unfoldable pub mill_words : ℕ → ℕ → ℕ → List ℕ → List ℕ → List ℕ
mill_words zero c r a aw = aw
mill_words (suc k) c r a aw =
    let r' = bit_and (c + r) 31 in
    let x = mill_word c r' a in mill_words k (suc c) r' a (set (set aw (c + 19) x) c x)

-- `a[y%m]=A[y]^A[y+1]^A[y+4]`, for each `y` from the top down.
unfoldable pub mill_spread : ℕ → List ℕ → List ℕ → List ℕ
mill_spread zero aw a = a
mill_spread (suc y) aw a =
    mill_spread y aw (set a (y % 19) (bit_xor (bit_xor (at aw y) (at aw (y + 1))) (at aw (y + 4))))

-- `b[y+1]=b[y]`, for each `y` from the top down.
unfoldable pub belt_shift : ℕ → List ℕ → List ℕ
belt_shift zero b = b
belt_shift (suc y) b = belt_shift y (set b (y + 1) (at b y))

-- `rgp(3)a[c+o]^=b[c*o]=b[c*o+o]`, the `k` rounds from `c` on.
unfoldable pub belt_out : ℕ → ℕ → Rg → Rg
belt_out zero c st = st
belt_out (suc k) c st =
    let v = at st.belt (c * 13 + 13) in
    belt_out k (suc c) (record { mill = xor_at st.mill (c + 13) v; belt = set st.belt (c * 13) v })

-- The two arrays of the loop over `y` do not meet, and stand aw two loops.
unfoldable pub rgf : List ℕ → Rg → Rg
rgf junk st =
    let b = belt_feed 12 0 st.mill st.belt in
    let aw = mill_words 19 0 0 st.mill junk in
    belt_out 3 0 (record { mill = xor_at (mill_spread 39 aw st.mill) 0 1; belt = belt_shift 39 b })

unfoldable pub rgf_times : ℕ → List ℕ → Rg → Rg
rgf_times zero junk st = st
rgf_times (suc k) junk st = rgf_times k junk (rgf junk st)

-- `rgn`
abbrev pub rgn : ℕ → ℕ → Rg → Rg
rgn c s st = record { belt = xor_at st.belt (c * 13) s; mill = xor_at st.mill (16 + c) s }

-- The loops of `rgl` over the bytes of the seed: byte `q` of word `c`, of which `s` is there.
unfoldable pub rgl_loop : List ℕ → ℕ → ℕ → ℕ → Rg → List ℕ → Rg
rgl_loop junk c q s st [] = rgf_times 17 junk (rgn c (bit_or s (1 <<< (8 * q))) st)
rgl_loop junk c q s st (x ∷ v) =
    let s' = bit_or s ((if x == 0 then 1 else x) <<< (8 * q)) in
    let last = rgf_times 17 junk (rgn c s' st) in
    let byte = rgl_loop junk c (suc q) s' st v in
    let word = rgl_loop junk (suc c) 0 0 (rgn c s' st) v in
    let block = rgl_loop junk 0 0 0 (rgf junk (rgn c s' st)) v in
    if x == 0 then last else if q == 3 then (if c == 2 then block else word) else byte

unfoldable pub rgl : List ℕ → List ℕ → Rg
rgl junk seed = rgl_loop junk 0 0 0 (record { mill = replicate 19 0; belt = replicate 40 0 }) seed

-- The generator with `rg_phase`, `rg_place` and `rg_num`.
pub record Generator : Type 0 where
  pub rg : Rg
  pub phase : ℕ
  pub place : ℕ
  pub num : ℕ

-- `rgi`: the word, and the arrays and the phase behind it.
unfoldable pub rgi : List ℕ → Generator → ℕ × Generator
rgi junk g =
    let st = if bit_and g.phase 2 == 0 then g.rg else rgf junk g.rg in
    let phase' = bit_xor g.phase 3 in (at st.mill phase', record g { rg = st; phase = phase' })

-- The seed of a generator that has none, "1234".
unfoldable pub seeded : List ℕ → Generator → Generator
seeded junk g =
    if g.phase == 0
    then record g { rg = rgl junk (b'1' ∷ b'2' ∷ b'3' ∷ b'4' ∷ []); phase = 2 }
    else g

-- The bytes of a word in the other order.
unfoldable pub swap_bytes : ℕ → ℕ
swap_bytes n =
    bit_or (n <<< 24)
      (bit_or (bit_and n 65280 <<< 8) (bit_or (bit_and n 16711680 >>> 8) (n >>> 24)))

unfoldable pub rand32 : List ℕ → Generator → ℕ × Generator
rand32 junk g = let r = rgi junk (seeded junk g) in (swap_bytes r.0, r.1)

-- `rg32_runmill`
unfoldable pub runmill : List ℕ → ℕ → Generator → Generator
runmill junk count g = record g { rg = rgf_times count junk g.rg }

-- The bytes of each half of a word in the other order.
unfoldable pub swap_halves : ℕ → ℕ
swap_halves n = bit_or (bit_and n 255 <<< 8) (
    bit_or (bit_and n 65280 >>> 8) (bit_or (bit_and n 16711680 <<< 8) (bit_and n 4278190080 >>> 8)))

-- The next half of a word, for what `rgi` draws; a word is drawn for two calls.
abbrev pub next_half : Generator → ℕ × Generator → Generator
next_half g r =
    if g.place == 0
    then record r.1 { num = swap_halves r.0; place = 1 }
    else record g { num = g.num >>> 16; place = 0 }

-- `math_rand16`
unfoldable pub rand16 : List ℕ → Generator → ℕ × Generator
rand16 junk g =
    let g' = seeded junk g in
    let next = next_half g' (rgi junk g') in (bit_and next.num 65535, next)

unfoldable pub randomseed : List ℕ → List ℕ → Generator → Generator
randomseed junk seed g = record { rg = rgl junk seed; phase = 2; place = 0; num = 0 }
