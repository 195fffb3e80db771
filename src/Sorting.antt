-- ===== src/Sorting.antt =====
-- The quicksort of src/ltablib.c. The table is a function from positions to values; the comparison, the
-- argument or `<`, is a function of two values.
pub mod Rearrange
pub mod Partition
pub mod Ends
use lunacy.Base.{ℕ, zero, suc, ◌+◌, ◌-◌, ◌/◌, ◌^◌, Bool, ltb, ◌==◌, if◌then◌else◌}

pub data SortError : Type 0 where
  invalid_order int_overflow out_of_rounds : SortError

pub data Result (A : Type 0) : Type 0 where
  ok : A → Result A
  error : SortError → Result A

abbrev pub and_then : {A B : Type 0} → (A → Result B) → Result A → Result B
and_then f (ok a) = f a
and_then f (error e) = error e

-- `i = (l+u)/2`, in `int`: C leaves open what a sum past its limit gives.
unfoldable pub middle : ℕ → ℕ → Result ℕ
middle l u = if ltb (l + u) (2 ^ 31) then ok ((l + u) / 2) else error int_overflow

module _ {V : Type 0} where
  -- `set2` of two values that were read in the other order.
  unfoldable pub swap : ℕ → ℕ → (ℕ → V) → ℕ → V
  swap i j a k = if k == i then a j else (if k == j then a i else a k)

module _ {V : Type 0} (lt : V → V → Bool) where
  -- `a[u] < a[l]?`
  unfoldable pub order_ends : ℕ → ℕ → (ℕ → V) → ℕ → V
  order_ends l u a = if lt (a u) (a l) then swap l u a else a

  -- `a[i]<a[l]?`, and `a[u]<a[i]?` if not.
  unfoldable pub order_middle : ℕ → ℕ → ℕ → (ℕ → V) → ℕ → V
  order_middle l i u a =
      if lt (a i) (a l) then swap i l a else (if lt (a u) (a i) then swap i u a else a)

  -- `repeat ++i until a[i] >= P`: it is an error to go on behind `u`, so `left` is at most u - i + 1.
  unfoldable pub scan_up : ℕ → V → (ℕ → V) → ℕ → ℕ → Result ℕ
  scan_up u p a zero i = error out_of_rounds
  scan_up u p a (suc left) i =
      let more = scan_up u p a left (suc i) in
      if lt (a (suc i)) p then (if ltb u (suc i) then error invalid_order else more) else ok (suc i)

  -- `repeat --j until a[j] <= P`
  unfoldable pub scan_down : ℕ → V → (ℕ → V) → ℕ → Result ℕ
  scan_down l p a zero = error out_of_rounds
  scan_down l p a (suc j) =
      let more = scan_down l p a j in
      if lt p (a j) then (if ltb j l then error invalid_order else more) else ok j

  -- The loop between the scans: where it ends, and the array.
  unfoldable pub partition : ℕ → ℕ → V → ℕ → ℕ → ℕ → (ℕ → V) → Result (ℕ × (ℕ → V))
  partition l u p zero i j a = error out_of_rounds
  partition l u p (suc rounds) i j a =
      and_then
        (λ i'.
          and_then
            (λ j'.
              let next = partition l u p rounds i' j' (swap i' j' a) in
              if ltb j' i' then ok (i', a) else next)
            (scan_down l p a j))
        (scan_up u p a (suc (u - i)) i)

  -- The array with its ends and the middle `i` in order and the pivot at u - 1.
  unfoldable pub place_pivot : (l i u : ℕ) → (ℕ → V) → ℕ → V
  place_pivot l i u a = swap i (u - 1) (order_middle l i u (order_ends l u a))

  -- `auxsort`; the loop over the larger half is a call too. A half is shorter than the range.
  unfoldable pub auxsort : ℕ → ℕ → ℕ → (ℕ → V) → Result (ℕ → V)
  auxsort zero l u a = error out_of_rounds
  auxsort (suc rounds) l u a =
      let ends = order_ends l u a in
      let split : ℕ → Result (ℕ → V) = λ i.
        (let a3 = place_pivot l i u a in
          and_then
            (λ r.
              let a4 = swap (u - 1) r.0 r.1 in
              let left_first =
                and_then (auxsort rounds (r.0 + 1) u) (auxsort rounds l (r.0 - 1) a4) in
              let right_first =
                and_then (auxsort rounds l (r.0 - 1)) (auxsort rounds (r.0 + 1) u a4) in
              if ltb (r.0 - l) (u - r.0) then left_first else right_first)
            (partition l u (a3 (u - 1)) u l (u - 1) a3)) in
      if ltb l u
      then (if u - l == 1
          then ok ends
          else and_then (λ i. if u - l == 2 then ok (order_middle l i u ends) else split i)
              (middle l u))
      else ok a

  unfoldable pub sort : ℕ → (ℕ → V) → Result (ℕ → V)
  sort n a = auxsort (n + 1) 1 n a
