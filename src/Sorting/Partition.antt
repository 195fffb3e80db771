-- ===== src/Sorting/Partition.antt =====
-- The scans of `auxsort` (src/ltablib.c) and the loop between them: where they stop, between two values
-- that stop them.
use mathlib.Core.Path.{subst}
use lunacy.Base.{
  ℕ, zero, suc, ◌+◌, ◌-◌, ◌≤◌, ◌<◌, ◌≡◌, sym, ◌⊎◌, inl, inr, Bool, true, false, ltb, if_cases,
  arith,
}
use lunacy.Sorting.{Result, ok, error, and_then, swap, scan_up, scan_down, partition}
use lunacy.Sorting.Rearrange.{
  Rearranged, Rearranged-refl, Rearranged-swap, Rearranged-then, swap-other,
}

-- A scan stops between two positions.
abbrev Stops : ℕ → ℕ → Result ℕ → Type 0
Stops lo hi (ok k) = (lo ≤ k) × (k ≤ hi)
Stops lo hi (error e) = ⊥

Stops-wider :
    (lo lo' hi hi' : ℕ) (r : Result ℕ) → lo ≤ lo' → hi' ≤ hi → Stops lo' hi' r → Stops lo hi r
Stops-wider lo lo' hi hi' (ok k) le ge (from, to) = (omega arith, omega arith)
Stops-wider lo lo' hi hi' (error e) le ge h = h

Stops-and_then :
    {B : Type 0} (P : Result B → Type 0) (f : ℕ → Result B) (lo hi : ℕ) (r : Result ℕ)
    → Stops lo hi r
    → ((k : ℕ) → lo ≤ k → k ≤ hi → P (f k))
    → P (and_then f r)
Stops-and_then P f lo hi (ok k) (from, to) run = run k from to
Stops-and_then P f lo hi (error e) h run = absurd h

module _ {V : Type 0} (lt : V → V → Bool) where
  scan_up-Stops :
      (u m : ℕ) (p : V) (a : ℕ → V) (left i : ℕ)
      → i < m
      → m ≤ u
      → m ≤ i + left
      → lt (a m) p ≡ false
      → Stops (suc i) m (scan_up lt u p a left i)
  unfolding scan_up
  scan_up-Stops u m p a zero i less le enough stop = absurd (omega arith)
  scan_up-Stops u m p a (suc left) i less le enough stop =
      if_cases (Stops (suc i) m) (lt (a (suc i)) p)
        (λ on.
          let before : suc i < m = go (last i m less) on in
          if_cases (Stops (suc i) m) (ltb u (suc i)) (λ out. absurd (ground arith))
            (λ inside.
              Stops-wider (suc i) (suc (suc i)) m m _ (omega arith) (omega arith)
                (scan_up-Stops u m p a left (suc i) before le (omega arith) stop)))
        (λ here. (omega arith, omega arith))
    where
      last : (x y : ℕ) → x < y → (suc x ≡ y) ⊎ (suc x < y)
      last x y h = ground arith

      go : (suc i ≡ m) ⊎ (suc i < m) → lt (a (suc i)) p ≡ true → suc i < m
      go (inl same) on =
          let off : lt (a (suc i)) p ≡ false = subst (λ k. lt (a k) p ≡ false) (sym same) stop in
          absurd cc
      go (inr more) on = more

  scan_down-Stops :
      (l : ℕ) (p : V) (a : ℕ → V) (j : ℕ)
      → l < j
      → lt p (a l) ≡ false
      → Stops l (j - 1) (scan_down lt l p a j)
  unfolding scan_down
  scan_down-Stops l p a zero less stop = absurd (omega arith)
  scan_down-Stops l p a (suc j) less stop =
      if_cases (Stops l (suc j - 1)) (lt p (a j))
        (λ on.
          let before : l < j = go (last l j (omega arith)) on in
          if_cases (Stops l (suc j - 1)) (ltb j l) (λ out. absurd (ground arith))
            (λ inside.
              Stops-wider l l (suc j - 1) (j - 1) _ (omega arith) (omega arith)
                (scan_down-Stops l p a j before stop)))
        (λ here. (omega arith, omega arith))
    where
      last : (x y : ℕ) → x ≤ y → (x ≡ y) ⊎ (x < y)
      last x y h = ground arith

      go : (l ≡ j) ⊎ (l < j) → lt p (a j) ≡ true → l < j
      go (inl same) on =
          let off : lt p (a j) ≡ false = subst (λ k. lt p (a k) ≡ false) same stop in absurd cc
      go (inr more) on = more

  -- The loop ends with the array rearranged, at a position for the pivot.
  abbrev pub Parted : ℕ → ℕ → (ℕ → V) → Result (ℕ × (ℕ → V)) → Type 0
  Parted l u a (ok (i, b)) = (l < i) × (i < u) × Rearranged l u a b
  Parted l u a (error e) = ⊥

  Parted-then :
      (l u : ℕ) (a b : ℕ → V) (r : Result (ℕ × (ℕ → V)))
      → Rearranged l u a b
      → Parted l u b r
      → Parted l u a r
  Parted-then l u a b (ok (i, c)) f (low, high, g) = (low, high, Rearranged-then l u a b c f g)
  Parted-then l u a b (error e) f h = h

  pub partition-Parted :
      (l u : ℕ) (p : V) (rounds i j : ℕ) (a : ℕ → V)
      → l ≤ i
      → i + 1 < u
      → l < j
      → j < u
      → j ≤ rounds
      → lt (a (u - 1)) p ≡ false
      → lt p (a l) ≡ false
      → Parted l u a (partition lt l u p rounds i j a)
  unfolding partition
  partition-Parted l u p zero i j a li iu lj ju enough high low = absurd (omega arith)
  partition-Parted l u p (suc rounds) i j a li iu lj ju enough high low =
      let upward =
        scan_up-Stops u (u - 1) p a (suc (u - i)) i (omega arith) (omega arith) (omega arith)
          high in
      let downward = scan_down-Stops l p a j lj low in
      Stops-and_then (Parted l u a) _ (suc i) (u - 1) _ upward (λ i' i_from i_to.
        Stops-and_then (Parted l u a) _ l (j - 1) _ downward (λ j' j_from j_to.
          if_cases (Parted l u a) (ltb j' i')
            (λ crossed. (omega arith, omega arith, Rearranged-refl l u a))
            (λ apart.
              let ordered : i' ≤ j' = ground arith in
              let b = swap i' j' a in
              let top =
                swap-other i' j' (u - 1) a (λ h. absurd (omega arith))
                  (λ h. absurd (omega arith)) in
              let bottom =
                swap-other i' j' l a (λ h. absurd (omega arith)) (λ h. absurd (omega arith)) in
              Parted-then l u a b _
                (Rearranged-swap l u i' j' a (omega arith) (omega arith) (omega arith)
                  (omega arith))
                (partition-Parted l u p rounds i' j' b (omega arith) (omega arith) (omega arith)
                  (omega arith) (omega arith) (subst (λ v. lt v p ≡ false) (sym top) high)
                  (subst (λ v. lt p v ≡ false) (sym bottom) low)))))
