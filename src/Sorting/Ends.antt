-- ===== src/Sorting/Ends.antt =====
-- table.sort (src/ltablib.c) with an asymmetric comparison.
use lunacy.Base.{
  ℕ, zero, suc, ◌+◌, ◌-◌, ◌/◌, ◌^◌, refl, lt→ltb, ◌≤◌, ◌<◌, ◌≡◌, inl, inr, Bool, true, false, ltb,
  ◌==◌, if_both, if_cases, Bool-cases, if◌then◌else◌, arith,
}
use lunacy.Sorting.{
  Result, ok, error, and_then, swap, order_ends, order_middle, middle, place_pivot, partition,
  auxsort, sort,
}
use lunacy.Sorting.Rearrange.{
  Rearranged, Rearranged-refl, Rearranged-swap, Rearranged-then, Rearranged-wider, swap-left,
  swap-right, swap-other,
}
use lunacy.Sorting.Partition.{Parted, partition-Parted}

middle_ok : (l u : ℕ) → l + u < 2 ^ 31 → middle l u ≡ ok ((l + u) / 2)
unfolding middle
middle_ok l u less = rw (lt→ltb (l + u) (2 ^ 31) less) refl

-- The call gives the array, rearranged from `l` to `u`.
abbrev pub Sorts : {V : Type 0} → ℕ → ℕ → (ℕ → V) → Result (ℕ → V) → Type 0
Sorts l u a (ok b) = Rearranged l u a b
Sorts l u a (error e) = ⊥

module _ {V : Type 0} where
  Sorts-then :
      (l u l' u' : ℕ) (a b : ℕ → V) (r : Result (ℕ → V))
      → l ≤ l'
      → u' ≤ u
      → Rearranged l u a b
      → Sorts l' u' b r
      → Sorts l u a r
  Sorts-then l u l' u' a b (ok c) le ge f g =
      Rearranged-then l u a b c f (Rearranged-wider l l' u u' b c le ge g)
  Sorts-then l u l' u' a b (error e) le ge f h = h

  Sorts-and_then :
      (l u : ℕ) (a : ℕ → V) (f : (ℕ → V) → Result (ℕ → V)) (r : Result (ℕ → V))
      → Sorts l u a r
      → ((b : ℕ → V) → Rearranged l u a b → Sorts l u a (f b))
      → Sorts l u a (and_then f r)
  Sorts-and_then l u a f (ok b) h run = run b h
  Sorts-and_then l u a f (error e) h run = absurd h

module _ {V : Type 0} (lt : V → V → Bool) where
  Parted-and_then :
      (l u : ℕ) (a : ℕ → V) (f : ℕ × (ℕ → V) → Result (ℕ → V)) (r : Result (ℕ × (ℕ → V)))
      → Parted lt l u a r
      → ((i : ℕ) (b : ℕ → V) → l < i → i < u → Rearranged l u a b → Sorts l u a (f (i, b)))
      → Sorts l u a (and_then f r)
  Parted-and_then l u a f (ok (i, b)) (low, high, g) run = run i b low high g
  Parted-and_then l u a f (error e) h run = absurd h

  order_ends-Rearranged : (l u : ℕ) (a : ℕ → V) → l ≤ u → Rearranged l u a (order_ends lt l u a)
  unfolding order_ends
  order_ends-Rearranged l u a le =
      if_both (Rearranged l u a) (lt (a u) (a l))
        (Rearranged-swap l u l u a (omega arith) (omega arith) (omega arith) (omega arith))
        (Rearranged-refl l u a)

  order_middle-Rearranged :
      (l i u : ℕ) (a : ℕ → V) → l ≤ i → i ≤ u → Rearranged l u a (order_middle lt l i u a)
  unfolding order_middle
  order_middle-Rearranged l i u a li iu =
      if_both (Rearranged l u a) (lt (a i) (a l))
        (Rearranged-swap l u i l a (omega arith) (omega arith) (omega arith) (omega arith))
        (if_both (Rearranged l u a) (lt (a u) (a i))
          (Rearranged-swap l u i u a (omega arith) (omega arith) (omega arith) (omega arith))
          (Rearranged-refl l u a))

  place_pivot-Rearranged :
      (l i u : ℕ) (a : ℕ → V)
      → l + 2 < u
      → l < i
      → i < u
      → Rearranged l u a (place_pivot lt l i u a)
  unfolding place_pivot
  place_pivot-Rearranged l i u a le low high =
      Rearranged-then l u _ _ _
        (Rearranged-then l u _ _ _ (order_ends-Rearranged l u a (omega arith))
          (order_middle-Rearranged l i u (order_ends lt l u a) (omega arith) (omega arith)))
        (Rearranged-swap l u i (u - 1) _ (omega arith) (omega arith) (omega arith) (omega arith))

module _ {V : Type 0} (lt : V → V → Bool)
    (asymmetric : (x y : V) → lt x y ≡ true → lt y x ≡ false) where
  irreflexive : (x : V) → lt x x ≡ false
  irreflexive x = elim (Bool-cases (lt x x)) [ inl h ↦ asymmetric x x h | inr h ↦ h ]

  ends_low :
      (l u : ℕ) (a : ℕ → V) → l < u → lt (order_ends lt l u a u) (order_ends lt l u a l) ≡ false
  unfolding order_ends
  ends_low l u a less =
      if_cases (λ (b : ℕ → V). lt (b u) (b l) ≡ false) (lt (a u) (a l))
        (λ h. rw (swap-left l u a, swap-right l u a) (asymmetric (a u) (a l) h)) (λ h. h)

  middle_low :
      (l i u : ℕ) (a : ℕ → V)
      → l < i
      → i < u
      → lt (a u) (a l) ≡ false
      → lt (order_middle lt l i u a i) (order_middle lt l i u a l) ≡ false
  unfolding order_middle
  middle_low l i u a li iu low =
      if_cases (λ (b : ℕ → V). lt (b i) (b l) ≡ false) (lt (a i) (a l))
        (λ h. rw (swap-left i l a, swap-right i l a) (asymmetric (a i) (a l) h))
        (λ h.
          if_cases (λ (b : ℕ → V). lt (b i) (b l) ≡ false) (lt (a u) (a i))
            (λ h'.
              rw
                (
                  swap-left i u a,
                  swap-other i u l a (λ e. absurd (omega arith)) (λ e. absurd (omega arith)),
                )
                low)
            (λ h'. h))

  -- The pivot is not less than the value at the lower end.
  pivot_low :
      (l i u : ℕ) (a : ℕ → V)
      → l + 2 < u
      → l < i
      → i < u
      → lt (place_pivot lt l i u a (u - 1)) (place_pivot lt l i u a l) ≡ false
  unfolding place_pivot
  pivot_low l i u a le low high =
      let b = order_ends lt l u a in
      let c = order_middle lt l i u b in
      rw
        (
          swap-right i (u - 1) c,
          swap-other i (u - 1) l c (λ e. absurd (omega arith)) (λ e. absurd (omega arith)),
        )
        (middle_low l i u b (omega arith) (omega arith) (ends_low l u a (omega arith)))

  -- Two parts of a range, one after the other.
  both_parts :
      (l u l1 u1 l2 u2 : ℕ) (a : ℕ → V) (first second : (ℕ → V) → Result (ℕ → V))
      → l ≤ l1
      → u1 ≤ u
      → l ≤ l2
      → u2 ≤ u
      → ((b : ℕ → V) → Sorts l1 u1 b (first b))
      → ((b : ℕ → V) → Sorts l2 u2 b (second b))
      → Sorts l u a (and_then second (first a))
  both_parts l u l1 u1 l2 u2 a first second le1 ge1 le2 ge2 h1 h2 =
      Sorts-and_then l u a second (first a)
        (Sorts-then l u l1 u1 a a _ le1 ge1 (Rearranged-refl l u a) (h1 a))
        (λ b f. Sorts-then l u l2 u2 a b _ le2 ge2 f (h2 b))

  -- A range of more than three values, if its halves are sorted.
  split-Sorts :
      (rounds l i u : ℕ) (a : ℕ → V)
      → l + 2 < u
      → l < i
      → i < u
      → ((k : ℕ) (b : ℕ → V) → l < k → k < u → Sorts l (k - 1) b (auxsort lt rounds l (k - 1) b))
      → ((k : ℕ) (b : ℕ → V) → l < k → k < u → Sorts (k + 1) u b (auxsort lt rounds (k + 1) u b))
      → Sorts l u a (
          and_then
            (λ r.
              let a4 = swap (u - 1) r.0 r.1 in
              if ltb (r.0 - l) (u - r.0)
              then and_then (auxsort lt rounds (r.0 + 1) u) (auxsort lt rounds l (r.0 - 1) a4)
              else and_then (auxsort lt rounds l (r.0 - 1)) (auxsort lt rounds (r.0 + 1) u a4))
            (partition lt l u
              (place_pivot lt l i u a (u - 1))
              u
              l
              (u - 1)
              (place_pivot lt l i u a)))
  split-Sorts rounds l i u a four from to left right =
      let c = place_pivot lt l i u a in
      let parted =
        partition-Parted lt l u (c (u - 1)) u l (u - 1) c (omega arith) (omega arith) (omega arith)
          (omega arith) (omega arith) (irreflexive (c (u - 1))) (pivot_low l i u a four from to) in
      Sorts-then l u l u a c _ (omega arith) (omega arith)
        (place_pivot-Rearranged lt l i u a four from to)
        (Parted-and_then lt l u c _ _ parted (λ k d low high f.
          let e = swap (u - 1) k d in
          let moved = Rearranged-then l u c d e f (
            Rearranged-swap l u (u - 1) k d (omega arith) (omega arith) (omega arith)
              (omega arith)) in
          Sorts-then l u l u c e _ (omega arith) (omega arith) moved (
            if_both (Sorts l u e) (ltb (k - l) (u - k))
              (both_parts l u l (k - 1) (k + 1) u e _ _ (omega arith) (omega arith) (omega arith)
                (omega arith) (λ b. left k b low high) (λ b. right k b low high))
              (both_parts l u (k + 1) u l (k - 1) e _ _ (omega arith) (omega arith) (omega arith)
                (omega arith) (λ b. right k b low high) (λ b. left k b low high)))))

  auxsort-Sorts :
      (rounds l u : ℕ) (a : ℕ → V)
      → 1 ≤ l
      → l ≤ u + 1
      → u + 2 ≤ l + rounds
      → u ≤ 2 ^ 30
      → Sorts l u a (auxsort lt rounds l u a)
  unfolding auxsort
  auxsort-Sorts zero l u a one le enough small = absurd (omega arith)
  auxsort-Sorts (suc rounds) l u a one le enough small =
      let b = order_ends lt l u a in
      let i = (l + u) / 2 in
      if_cases (Sorts l u a) (ltb l u)
        (λ less.
          let ordered : l < u = ground arith in
          let ends = order_ends-Rearranged lt l u a (omega arith) in
          if_cases (Sorts l u a) (u - l == 1) (λ two. ends)
            (λ not_two. rw (middle_ok l u (omega arith)) (
              if_cases (Sorts l u a) (u - l == 2)
                (λ three.
                  Rearranged-then l u a b _ ends
                    (order_middle-Rearranged lt l i u b (omega arith) (omega arith)))
                (λ more.
                  let four : l + 2 < u = ground arith in
                  split-Sorts rounds l i u a four (omega arith) (omega arith)
                    (λ k d low high.
                      auxsort-Sorts rounds l (k - 1) d one (omega arith) (omega arith)
                        (omega arith))
                    (λ k d low high.
                      auxsort-Sorts rounds (k + 1) u d (omega arith) (omega arith) (omega arith)
                        small)))))
        (λ h. Rearranged-refl l u a)

-- table.sort of at most 2 ^ 30 values with an asymmetric comparison ends without the error "invalid
-- order function for sorting" and without an overflow of `int`, and gives an array that has the same
-- values at other positions from 1 to n, and is the same elsewhere.
pub sort-Sorts :
    {V : Type 0} (lt : V → V → Bool) (n : ℕ) (a : ℕ → V)
    → n ≤ 2 ^ 30
    → ((x y : V) → lt x y ≡ true → lt y x ≡ false)
    → Sorts 1 n a (sort lt n a)
unfolding sort
sort-Sorts lt n a small asymmetric =
    auxsort-Sorts lt asymmetric (n + 1) 1 n a (omega arith) (omega arith) (omega arith) small
