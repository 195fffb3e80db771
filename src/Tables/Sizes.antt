-- ===== src/Tables/Sizes.antt =====
-- `computesizes` (src/ltable.c) against the array sizes that it chooses from. A size is a candidate when
-- more than half of its slots are in use; the comment at the top of src/ltable.c says at least half.
use lunacy.Base.{
  ℕ, ◌+◌, ◌-◌, ◌*◌, ◌/◌, ◌≤◌, ◌<◌, ◌≡◌, refl, sym, true, List, [], ◌∷◌, ◌⊎◌, inl, inr, ltb, ◌==◌,
  ◌&&◌, if◌then◌else◌, Bool-cases, if_cases, All, arith,
}
use lunacy.Tables.{computesizes_loop, computesizes}

abbrev pub total : List ℕ → ℕ
total [] = 0
total (c ∷ nums) = c + total nums

-- The array sizes 2 ^ i from `t` on, each with the number of elements that would be in the array:
-- `a`, and those of the slices up to its own.
abbrev pub candidates : ℕ → ℕ → List ℕ → List (ℕ × ℕ)
candidates t a [] = []
candidates t a (c ∷ nums) = (t, a + c) ∷ candidates (t * 2) (a + c) nums

-- No slice counts more elements than it has keys.
abbrev pub Slices : ℕ → List ℕ → Type 0
Slices t [] = Unit
Slices t (c ∷ nums) = (c ≤ t - t / 2) × Slices (t * 2) nums

abbrev pub Among : ℕ → ℕ → List (ℕ × ℕ) → Type 0
Among n na [] = ⊥
Among n na (p ∷ ps) = ((p.0 ≡ n) × (p.1 ≡ na)) ⊎ Among n na ps

-- Each size that is more than half full is at most `n`.
abbrev pub Largest : ℕ → List (ℕ × ℕ) → Type 0
Largest n = All (λ (p : ℕ × ℕ). (p.1 ≤ p.0 / 2) ⊎ (p.0 ≤ n))

none_later : (n t a : ℕ) (nums : List ℕ) → a + total nums ≤ t / 2 → Largest n (candidates t a nums)
none_later n t a [] h = tt
none_later n t a (c ∷ nums) h = (inl (omega arith), none_later n (t * 2) (a + c) nums (omega arith))

-- What the loop gives from a slice on.
record Best (t a na n : ℕ) (nums : List ℕ) (r : ℕ × ℕ) : Type 0 where
  largest : Largest r.0 (candidates t a nums)
  chosen : ((r.0 ≡ n) × (r.1 ≡ na)) ⊎ (Among r.0 r.1 (candidates t a nums) × (r.0 / 2 < r.1))
  grows : n ≤ r.0

stop-Best : (t a na n : ℕ) (nums : List ℕ) → a + total nums ≤ t / 2 → Best t a na n nums (n, na)
stop-Best t a na n nums h = record {
  largest = none_later n t a nums h;
  chosen = inl (refl, refl);
  grows = omega arith;
}

-- The slice is passed over, or its size is taken.
skip-Best :
    (t a na n c : ℕ) (nums : List ℕ) (r : ℕ × ℕ)
    → a + c ≤ t / 2
    → Best (t * 2) (a + c) na n nums r
    → Best t a na n (c ∷ nums) r
skip-Best t a na n c nums r few b = record {
  largest = (inl few, b.largest);
  chosen = elim (b.chosen) [ inl q ↦ inl q | inr q ↦ inr (inr q.0, q.1) ];
  grows = b.grows;
}

take-Best :
    (t a na n c : ℕ) (nums : List ℕ) (r : ℕ × ℕ)
    → t / 2 < a + c
    → n ≤ t
    → Best (t * 2) (a + c) (a + c) t nums r
    → Best t a na n (c ∷ nums) r
take-Best t a na n c nums r many hn b = record {
  largest = (inr b.grows, b.largest);
  chosen = elim (b.chosen) [
    | inl q ↦ inr (inl (sym q.0, sym q.1), rw (q.0, q.1) many)
    | inr q ↦ inr (inr q.0, q.1)
  ];
  grows = (let up = b.grows in omega arith);
}

loop-Best :
    (narray : ℕ) (nums : List ℕ) (t a na n : ℕ)
    → a ≤ t / 2
    → n ≤ t
    → 0 < t
    → Slices t nums
    → a + total nums ≡ narray
    → Best t a na n nums (computesizes_loop narray nums t a na n)
unfolding computesizes_loop
loop-Best narray [] t a na n ha hn ht h e = record {
  largest = tt;
  chosen = inl (refl, refl);
  grows = omega arith;
}
loop-Best narray (c ∷ nums) t a na n ha hn ht (hc, h) e =
    let step : (if ltb 0 c then a + c else a) ≡ a + c = ground arith in
    let done : (a + c == narray) ≡ true → a + c + total nums ≤ t * 2 / 2 = λ q. ground (arith, q) in
    if_cases (Best t a na n (c ∷ nums)) (ltb (t / 2) narray)
      (λ go. elim (Bool-cases (ltb 0 c && ltb (t / 2) (a + c))) [
        | inl more ↦
            let many : t / 2 < a + c = ground (arith, more) in
            rw (step, more)
              (take-Best t a na n c nums _ many hn (
                if_cases (Best (t * 2) (a + c) (a + c) t nums) (a + c == narray)
                  (λ q. stop-Best (t * 2) (a + c) (a + c) t nums (done q))
                  (λ q.
                    loop-Best narray nums (t * 2) (a + c) (a + c) t (omega arith) (omega arith)
                      (omega arith) h (omega arith))))
        | inr no_more ↦
            let few : a + c ≤ t / 2 = ground (arith, no_more) in
            rw (step, no_more)
              (skip-Best t a na n c nums _ few (
                if_cases (Best (t * 2) (a + c) na n nums) (a + c == narray)
                  (λ q. stop-Best (t * 2) (a + c) na n nums (done q))
                  (λ q.
                    loop-Best narray nums (t * 2) (a + c) na n (omega arith) (omega arith)
                      (omega arith) h (omega arith))))
      ])
      (λ stop. stop-Best t a na n (c ∷ nums) (ground (arith, stop)))

-- When `nums` counts the candidates in the slices (2 ^ (i - 1), 2 ^ i], `narray` of them in all, and
-- no slice has more than its keys, then `computesizes` gives an array size and the number of
-- elements in it such that every power of 2 that would be more than half full is at most the size,
-- and the size is 0 with no element, or one of the powers of 2 with its number of elements, and more
-- than half full.
pub computesizes_lem :
    (nums : List ℕ) (narray : ℕ)
    → Slices 1 nums
    → total nums ≡ narray
    → Largest (computesizes nums narray).0 (candidates 1 0 nums)
      × ((((computesizes nums narray).0 ≡ 0) × ((computesizes nums narray).1 ≡ 0))
          ⊎ (Among (computesizes nums narray).0 (computesizes nums narray).1 (candidates 1 0 nums)
              × ((computesizes nums narray).0 / 2 < (computesizes nums narray).1)))
unfolding computesizes
computesizes_lem nums narray h e =
    let b =
      loop-Best narray nums 1 0 0 0 (omega arith) (omega arith) (omega arith) h (omega arith) in
    (b.largest, b.chosen)
