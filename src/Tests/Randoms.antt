-- ===== src/Tests/Randoms.antt =====
-- A generator without a seed (src/lmathlib.c), over two contents of the array.
use lunacy.Base.{ℕ, ◌≡◌, refl, List, [], ◌∷◌, replicate}
use lunacy.Random.{Generator, rand32, rand16, randomseed, rotr, swap_bytes, swap_halves}
use lunacy.Random.Drawing.{draws-same}

abbrev fresh : Generator
fresh = record {
  rg = record { mill = replicate 19 0; belt = replicate 40 0 };
  phase = 0;
  place = 0;
  num = 0;
}

abbrev zeros : List ℕ
zeros = replicate 45 0

abbrev sevens : List ℕ
sevens = replicate 45 7

draws-same_example :
    (randomseed zeros (b'a' ∷ []) fresh ≡ randomseed sevens (b'a' ∷ []) fresh)
    × (rand32 zeros fresh ≡ rand32 sevens fresh)
    × (rand16 zeros fresh ≡ rand16 sevens fresh)
draws-same_example = draws-same zeros sevens (b'a' ∷ []) fresh refl refl refl

word_runs :
    (rotr 1 1 ≡ 2147483648) × (swap_bytes 16909060 ≡ 67305985) × (swap_halves 16909060 ≡ 33620995)
unfolding swap_bytes swap_halves
word_runs = (refl, refl, refl)
