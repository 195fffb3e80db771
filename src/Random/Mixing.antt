-- ===== src/Random/Mixing.antt =====
-- The array `A` of `rgf` (src/lmathlib.c): which of its words count.
use lunacy.Base.{
  ℕ, zero, suc, ◌+◌, ◌%◌, ◌≤◌, ◌<◌, ◌≡◌, ◌≢◌, refl, sym, ap, ◌∙◌, ◌⊎◌, inl, inr, List, [], ◌∷◌,
  bit_and, bit_xor, length, set, length-set, get_or-set_self, get_or-set_ne, arith,
}
use mathlib.Core.Path.{subst}
use lunacy.Random.{
  Rg, at, mill_word, mill_words, mill_spread, belt_out, belt_feed, belt_shift, xor_at, rgf,
}

same_words :
    (a b : List ℕ) → length a ≡ length b → ((j : ℕ) → j < length a → at a j ≡ at b j) → a ≡ b
same_words [] [] size h = refl
same_words [] (y ∷ b) size h = absurd (omega arith)
same_words (x ∷ a) [] size h = absurd (omega arith)
same_words (x ∷ a) (y ∷ b) size h =
    let here : x ≡ y = h 0 (omega arith) in
    let rest : a ≡ b = same_words a b (omega arith) (λ j less. h (suc j) (omega arith)) in
    ap (λ t. t ∷ a) here ∙ ap (λ t. y ∷ t) rest

-- Both arrays have the same word at `j`, if `i` is set to the same one in both.
at-set :
    (a b : List ℕ) (i j v : ℕ)
    → length a ≡ length b
    → j < length a
    → (i ≢ j → at a j ≡ at b j)
    → at (set a i v) j ≡ at (set b i v) j
at-set a b i j v size less h = elim (same i j) [
  | inl eq ↦
      subst (λ k. at (set a i v) k ≡ at (set b i v) k) eq
        (get_or-set_self a i v 0 (omega arith) ∙ sym (get_or-set_self b i v 0 (omega arith)))
  | inr ne ↦ get_or-set_ne a i j v 0 ne ∙ (h ne ∙ sym (get_or-set_ne b i j v 0 ne))
]
  where
    same : (n m : ℕ) → (n ≡ m) ⊎ (n ≢ m)
    same n m = ground arith

-- The words that are written once `c` rounds are done.
abbrev Agree : ℕ → List ℕ → List ℕ → Type 0
Agree c aw bw = (j : ℕ) → (j < c) ⊎ ((19 ≤ j) × (j < 19 + c)) → at aw j ≡ at bw j

mill_words-Agree :
    (k c r : ℕ) (a aw bw : List ℕ)
    → length aw ≡ 45
    → length bw ≡ 45
    → c + k ≡ 19
    → Agree c aw bw
    → Agree 19 (mill_words k c r a aw) (mill_words k c r a bw)
unfolding mill_words
mill_words-Agree zero c r a aw bw la lb size h =
    let full : c ≡ 19 = omega arith in subst (λ n. Agree n aw bw) full h
mill_words-Agree (suc k) c r a aw bw la lb size h =
    let r' = bit_and (c + r) 31 in
    let x = mill_word c r' a in
    let la1 = length-set aw (c + 19) x in
    let lb1 = length-set bw (c + 19) x in
    let la2 = length-set (set aw (c + 19) x) c x in
    let lb2 = length-set (set bw (c + 19) x) c x in
    mill_words-Agree k (suc c) r' a _ _ (omega arith) (omega arith) (omega arith) (λ j settled.
      at-set (set aw (c + 19) x) (set bw (c + 19) x) c j x (omega arith) (ground arith)
        (λ ne. at-set aw bw (c + 19) j x (omega arith) (ground arith) (λ ne'. h j (ground arith))))

spread_word-Agree :
    (aw bw : List ℕ) (y : ℕ)
    → y < 19
    → Agree 19 aw bw
    → bit_xor (bit_xor (at aw y) (at aw (y + 1))) (at aw (y + 4))
      ≡ bit_xor (bit_xor (at bw y) (at bw (y + 1))) (at bw (y + 4))
spread_word-Agree aw bw y less h =
    let first = h y (ground arith) in
    let second = h (y + 1) (ground arith) in
    let third = h (y + 4) (ground arith) in rw (first, second, third) refl

-- The words below `n` are set last, from words of `A` that are written.
mill_spread-Agree :
    (n : ℕ) (aw bw a b : List ℕ)
    → n ≤ 19
    → length a ≡ 19
    → length b ≡ 19
    → Agree 19 aw bw
    → ((j : ℕ) → n ≤ j → j < 19 → at a j ≡ at b j)
    → mill_spread n aw a ≡ mill_spread n bw b
unfolding mill_spread
mill_spread-Agree zero aw bw a b le la lb h above =
    same_words a b (omega arith) (λ j less. above j (omega arith) (omega arith))
mill_spread-Agree (suc y) aw bw a b le la lb h above =
    let v = bit_xor (bit_xor (at aw y) (at aw (y + 1))) (at aw (y + 4)) in
    let w = bit_xor (bit_xor (at bw y) (at bw (y + 1))) (at bw (y + 4)) in
    let same : v ≡ w = spread_word-Agree aw bw y (omega arith) h in
    let la1 = length-set a (y % 19) v in
    let lb1 = length-set b (y % 19) v in
    let next : mill_spread y aw (set a (y % 19) v) ≡ mill_spread y bw (set b (y % 19) v) =
      mill_spread-Agree y aw bw _ _ (omega arith) (omega arith) (omega arith) h (λ j from less.
        at-set a b (y % 19) j v (omega arith) (omega arith) (λ ne. above j (ground arith) less)) in
    next ∙ ap (λ u. mill_spread y bw (set b (y % 19) u)) same

-- From 19 words on, each word of the mill is set from words of `A` that are written.
mill_spread-same :
    (n : ℕ) (aw bw a b : List ℕ)
    → 19 ≤ n
    → length a ≡ 19
    → length b ≡ 19
    → Agree 19 aw bw
    → mill_spread n aw a ≡ mill_spread n bw b
unfolding mill_spread
mill_spread-same zero aw bw a b ge la lb h = absurd (omega arith)
mill_spread-same (suc y) aw bw a b ge la lb h = elim (last y ge) [
  | inl more ↦
      let la1 =
        length-set a (y % 19) (bit_xor (bit_xor (at aw y) (at aw (y + 1))) (at aw (y + 4))) in
      let lb1 =
        length-set b (y % 19) (bit_xor (bit_xor (at bw y) (at bw (y + 1))) (at bw (y + 4))) in
      mill_spread-same y aw bw _ _ more (omega arith) (omega arith) h
  | inr rest ↦
      mill_spread-Agree (suc y) aw bw a b (omega arith) la lb h
        (λ j from less. absurd (omega arith))
]
  where
    last : (m : ℕ) → 19 ≤ suc m → (19 ≤ m) ⊎ (suc m ≡ 19)
    last m h = ground arith

length-mill_spread : (n : ℕ) (aw a : List ℕ) → length (mill_spread n aw a) ≡ length a
unfolding mill_spread
length-mill_spread zero aw a = refl
length-mill_spread (suc y) aw a = length-mill_spread y aw _ ∙ length-set a (y % 19) _

length-belt_out : (k c : ℕ) (st : Rg) → length (belt_out k c st).mill ≡ length st.mill
unfolding belt_out
length-belt_out zero c st = refl
length-belt_out (suc k) c st = length-belt_out k (suc c) _ ∙ length-set st.mill (c + 13) _

pub length-rgf : (junk : List ℕ) (st : Rg) → length (rgf junk st).mill ≡ length st.mill
unfolding rgf
length-rgf junk st =
    length-belt_out 3 0 _
    ∙ (length-set (mill_spread 39 (mill_words 19 0 0 st.mill junk) st.mill) 0 _
        ∙ length-mill_spread 39 _ st.mill)

-- `rgf` reads words of `A` that it has not set, and its result does not depend on them.
pub rgf-same :
    (junk junk' : List ℕ) (st : Rg)
    → length junk ≡ 45
    → length junk' ≡ 45
    → length st.mill ≡ 19
    → rgf junk st ≡ rgf junk' st
unfolding rgf
rgf-same junk junk' st size size' words =
    ap
      (λ m.
        belt_out 3 0
          (record { mill = xor_at m 0 1; belt = belt_shift 39 (belt_feed 12 0 st.mill st.belt) }))
      (mill_spread-same 39 _ _ st.mill st.mill (omega arith) words words (
        mill_words-Agree 19 0 0 st.mill junk junk' size size' (omega arith)
          (λ j settled. absurd (ground arith))))
