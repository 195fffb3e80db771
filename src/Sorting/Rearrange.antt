-- ===== src/Sorting/Rearrange.antt =====
-- Arrays with the same values at other positions of a range (src/ltablib.c, `set2`).
use lunacy.Base.{
  ℕ, ◌≤◌, ◌<◌, ◌≡◌, refl, ap, ◌∙◌, ◌⊎◌, Bool, true, false, ◌==◌, ◌≢◌, if_cases, if◌then◌else◌,
  arith,
}
use lunacy.Sorting.{swap}

-- `after` has the values of `before`, each at one position, and only positions from `l` to `u` differ.
pub record Rearranged {V : Type 0} (l u : ℕ) (before after : ℕ → V) : Type 0 where
  pub from : ℕ → ℕ
  pub to : ℕ → ℕ
  pub from_to : (k : ℕ) → from (to k) ≡ k
  pub to_from : (k : ℕ) → to (from k) ≡ k
  pub fixed : (k : ℕ) → (k < l) ⊎ (u < k) → from k ≡ k
  pub moved : (k : ℕ) → after k ≡ before (from k)

abbrev swap_index : ℕ → ℕ → ℕ → ℕ
swap_index i j k = if k == i then j else (if k == j then i else k)

swap_index-twice : (i j k : ℕ) → swap_index i j (swap_index i j k) ≡ k
swap_index-twice i j k = ground arith

module _ {V : Type 0} where
  pub Rearranged-refl : (l u : ℕ) (a : ℕ → V) → Rearranged l u a a
  Rearranged-refl l u a = record {
    from = λ k. k;
    to = λ k. k;
    from_to = λ k. refl;
    to_from = λ k. refl;
    fixed = λ k h. refl;
    moved = λ k. refl;
  }

  at_if : (a : ℕ → V) (b : Bool) (x y : ℕ) → (if b then a x else a y) ≡ a (if b then x else y)
  at_if a true x y = refl
  at_if a false x y = refl

  pub Rearranged-swap :
      (l u i j : ℕ) (a : ℕ → V) → l ≤ i → i ≤ u → l ≤ j → j ≤ u → Rearranged l u a (swap i j a)
  unfolding swap
  Rearranged-swap l u i j a li iu lj ju = record {
    from = swap_index i j;
    to = swap_index i j;
    from_to = swap_index-twice i j;
    to_from = swap_index-twice i j;
    fixed = λ k h. ground arith;
    moved = λ k. ap (λ v. if k == i then a j else v) (at_if a (k == j) i k) ∙ at_if a (k == i) j _;
  }

  pub Rearranged-then :
      (l u : ℕ) (a b c : ℕ → V) → Rearranged l u a b → Rearranged l u b c → Rearranged l u a c
  Rearranged-then l u a b c f g = record {
    from = λ k. f.from (g.from k);
    to = λ k. g.to (f.to k);
    from_to = λ k. ap f.from (g.from_to (f.to k)) ∙ f.from_to k;
    to_from = λ k. ap g.to (f.to_from (g.from k)) ∙ g.to_from k;
    fixed = λ k h. ap f.from (g.fixed k h) ∙ f.fixed k h;
    moved = λ k. g.moved k ∙ f.moved (g.from k);
  }

  pub Rearranged-wider :
      (l l' u u' : ℕ) (a b : ℕ → V) → l ≤ l' → u' ≤ u → Rearranged l' u' a b → Rearranged l u a b
  Rearranged-wider l l' u u' a b le ge f = record {
    from = f.from;
    to = f.to;
    from_to = f.from_to;
    to_from = f.to_from;
    fixed = λ k h. f.fixed k (ground arith);
    moved = f.moved;
  }

  pub swap-left : (i j : ℕ) (a : ℕ → V) → swap i j a i ≡ a j
  unfolding swap
  swap-left i j a = if_cases (λ v. v ≡ a j) (i == i) (λ h. refl) (λ h. absurd (ground arith))

  pub swap-right : (i j : ℕ) (a : ℕ → V) → swap i j a j ≡ a i
  unfolding swap
  swap-right i j a =
      if_cases (λ v. v ≡ a i) (j == i) (λ h. let same : j ≡ i = ground arith in ap a same)
        (λ h. if_cases (λ v. v ≡ a i) (j == j) (λ h'. refl) (λ h'. absurd (ground arith)))

  pub swap-other : (i j k : ℕ) (a : ℕ → V) → k ≢ i → k ≢ j → swap i j a k ≡ a k
  unfolding swap
  swap-other i j k a ni nj =
      if_cases (λ v. v ≡ a k) (k == i) (λ h. absurd (ni (ground arith)))
        (λ h. if_cases (λ v. v ≡ a k) (k == j) (λ h'. absurd (nj (ground arith))) (λ h'. refl))
