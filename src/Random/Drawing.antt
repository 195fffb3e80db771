-- ===== src/Random/Drawing.antt =====
-- Seeding and drawing (src/lmathlib.c), over two contents of the array that `rgf` does not set.
use lunacy.Base.{
  ℕ, zero, suc, ◌+◌, ◌*◌, ◌≡◌, refl, ap, ◌∙◌, Bool, true, false, bit_and, bit_xor, List, [], ◌∷◌,
  bit_or, ◌<<<◌, ◌==◌, if_both, if◌then◌else◌, length, get_or, length-set,
}
use lunacy.Random.{
  Rg, rgf, rgf_times, rgn, rgl_loop, rgl, Generator, rgi, seeded, rand32, rand16, next_half,
  swap_bytes, randomseed,
}
use lunacy.Random.Mixing.{length-rgf, rgf-same}

length-rgn : (c s : ℕ) (st : Rg) → length st.mill ≡ 19 → length (rgn c s st).mill ≡ 19
length-rgn c s st h = length-set st.mill (16 + c) _ ∙ h

if_same :
    {A : Type 0} (b : Bool) {x x' y y' : A}
    → x ≡ x'
    → y ≡ y'
    → (if b then x else y) ≡ (if b then x' else y')
if_same true p q = p
if_same false p q = q

-- The arrays that have 19 words in the mill.
abbrev Sized : Rg → Type 0
Sized st = length st.mill ≡ 19

rgf_times-Sized : (k : ℕ) (junk : List ℕ) (st : Rg) → Sized st → Sized (rgf_times k junk st)
unfolding rgf_times
rgf_times-Sized zero junk st h = h
rgf_times-Sized (suc k) junk st h = rgf_times-Sized k junk (rgf junk st) (length-rgf junk st ∙ h)

rgl_loop-Sized :
    (junk : List ℕ) (c q s : ℕ) (st : Rg) (seed : List ℕ)
    → Sized st
    → Sized (rgl_loop junk c q s st seed)
unfolding rgl_loop
rgl_loop-Sized junk c q s st [] h = rgf_times-Sized 17 junk _ (length-rgn c _ st h)
rgl_loop-Sized junk c q s st (x ∷ v) h =
    let s' = bit_or s ((if x == 0 then 1 else x) <<< (8 * q)) in
    let fed = length-rgn c s' st h in
    let block =
      rgl_loop-Sized junk 0 0 0 (rgf junk (rgn c s' st)) v (length-rgf junk (rgn c s' st) ∙ fed) in
    let word = rgl_loop-Sized junk (suc c) 0 0 (rgn c s' st) v fed in
    let byte = rgl_loop-Sized junk c (suc q) s' st v h in
    if_both Sized (x == 0) (rgf_times-Sized 17 junk (rgn c s' st) fed)
      (if_both Sized (q == 3) (if_both Sized (c == 2) block word) byte)

seeded-Sized : (junk : List ℕ) (g : Generator) → Sized g.rg → Sized (seeded junk g).rg
unfolding seeded rgl
seeded-Sized junk g h =
    if_both (λ (g' : Generator). Sized g'.rg) (g.phase == 0)
      (rgl_loop-Sized junk 0 0 0 _ (b'1' ∷ b'2' ∷ b'3' ∷ b'4' ∷ []) refl) h

module _ (junk junk' : List ℕ) (size : length junk ≡ 45) (size' : length junk' ≡ 45) where
  rgf_times-same :
      (k : ℕ) (st : Rg) → length st.mill ≡ 19 → rgf_times k junk st ≡ rgf_times k junk' st
  unfolding rgf_times
  rgf_times-same zero st h = refl
  rgf_times-same (suc k) st h =
      rgf_times-same k (rgf junk st) (length-rgf junk st ∙ h)
      ∙ ap (rgf_times k junk') (rgf-same junk junk' st size size' h)

  rgl_loop-same :
      (c q s : ℕ) (st : Rg) (seed : List ℕ)
      → length st.mill ≡ 19
      → rgl_loop junk c q s st seed ≡ rgl_loop junk' c q s st seed
  unfolding rgl_loop
  rgl_loop-same c q s st [] h = rgf_times-same 17 _ (length-rgn c _ st h)
  rgl_loop-same c q s st (x ∷ v) h =
      let s' = bit_or s ((if x == 0 then 1 else x) <<< (8 * q)) in
      let fed = length-rgn c s' st h in
      let mixed = rgf-same junk junk' (rgn c s' st) size size' fed in
      let block =
        rgl_loop-same 0 0 0 (rgf junk (rgn c s' st)) v (length-rgf junk (rgn c s' st) ∙ fed)
        ∙ ap (λ t. rgl_loop junk' 0 0 0 t v) mixed in
      let word = rgl_loop-same (suc c) 0 0 (rgn c s' st) v fed in
      let byte = rgl_loop-same c (suc q) s' st v h in
      if_same (x == 0) (rgf_times-same 17 (rgn c s' st) fed)
        (if_same (q == 3) (if_same (c == 2) block word) byte)

  rgl-same : (seed : List ℕ) → rgl junk seed ≡ rgl junk' seed
  unfolding rgl
  rgl-same seed = rgl_loop-same 0 0 0 _ seed refl

  seeded-same : (g : Generator) → seeded junk g ≡ seeded junk' g
  unfolding seeded
  seeded-same g =
      if_same (g.phase == 0) (ap (λ t. record g { rg = t; phase = 2 }) (rgl-same _)) refl

  rgi-same : (g : Generator) → Sized g.rg → rgi junk g ≡ rgi junk' g
  unfolding rgi
  rgi-same g h =
      ap
        (λ st.
          (get_or st.mill (bit_xor g.phase 3) 0, record g { rg = st; phase = bit_xor g.phase 3 }))
        (if_same (bit_and g.phase 2 == 0) refl (rgf-same junk junk' g.rg size size' h))

  seeded-rgi-same :
      (g : Generator) → Sized g.rg → rgi junk (seeded junk g) ≡ rgi junk' (seeded junk' g)
  seeded-rgi-same g h =
      rgi-same (seeded junk g) (seeded-Sized junk g h) ∙ ap (rgi junk') (seeded-same g)

  rand32-same : (g : Generator) → Sized g.rg → rand32 junk g ≡ rand32 junk' g
  unfolding rand32
  rand32-same g h = ap (λ r. (swap_bytes r.0, r.1)) (seeded-rgi-same g h)

  rand16-same : (g : Generator) → Sized g.rg → rand16 junk g ≡ rand16 junk' g
  unfolding rand16
  rand16-same g h =
      ap (λ next. (bit_and next.num 65535, next))
        (ap (next_half (seeded junk g)) (seeded-rgi-same g h)
          ∙ ap (λ g'. next_half g' (rgi junk' (seeded junk' g))) (seeded-same g))

  randomseed-same :
      (seed : List ℕ) (g : Generator) → randomseed junk seed g ≡ randomseed junk' seed g
  unfolding randomseed
  randomseed-same seed g =
      ap (λ t. record { rg = t; phase = 2; place = 0; num = 0 }) (rgl-same seed)

-- `rgf` reads words of its array that it has not set. Whatever they are, the seeding gives the same
-- generator, and so do the draws of math.rand32 and math.rand16, with the same numbers: for two
-- contents of the 45 words and a mill of 19.
pub draws-same :
    (junk junk' seed : List ℕ) (g : Generator)
    → length junk ≡ 45
    → length junk' ≡ 45
    → length g.rg.mill ≡ 19
    → (randomseed junk seed g ≡ randomseed junk' seed g)
      × (rand32 junk g ≡ rand32 junk' g)
      × (rand16 junk g ≡ rand16 junk' g)
draws-same junk junk' seed g size size' h = (
  randomseed-same junk junk' size size' seed g,
  rand32-same junk junk' size size' g h,
  rand16-same junk junk' size size' g h,
)
