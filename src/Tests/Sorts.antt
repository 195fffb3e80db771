-- ===== src/Tests/Sorts.antt =====
-- table.sort (src/ltablib.c) on five numbers, with `<` and with a comparison that holds always.
use lunacy.Base.{ℕ, ◌≡◌, refl, List, [], ◌∷◌, true, ltb, get_or, arith}
use lunacy.Sorting.{
  Result, ok, error, and_then, invalid_order, swap, order_ends, order_middle, scan_up, scan_down,
  partition, middle, place_pivot, auxsort, sort,
}
use lunacy.Sorting.Ends.{Sorts, sort-Sorts}

abbrev five : ℕ → ℕ
five k = get_or (0 ∷ 4 ∷ 1 ∷ 5 ∷ 3 ∷ 2 ∷ []) k 0

abbrev values : Result (ℕ → ℕ) → Result (List ℕ)
values r = and_then (λ a. ok (a 1 ∷ a 2 ∷ a 3 ∷ a 4 ∷ a 5 ∷ [])) r

sort_runs :
    (values (sort ltb 5 five) ≡ ok (1 ∷ 2 ∷ 3 ∷ 4 ∷ 5 ∷ []))
    × (values (sort (λ x y. true) 5 five) ≡ error invalid_order)
unfolding sort auxsort middle place_pivot partition scan_up scan_down order_ends order_middle swap
sort_runs = (refl, refl)

sort-Sorts_example : Sorts 1 5 five (sort ltb 5 five)
sort-Sorts_example = sort-Sorts ltb 5 five (omega arith) (λ x y h. ground arith)
