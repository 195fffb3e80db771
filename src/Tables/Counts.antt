-- ===== src/Tables/Counts.antt =====
-- What `rehash` counts (src/ltable.c): the keys of each slice (2 ^ (i - 1), 2 ^ i].
use lunacy.Base.{
  ℕ, zero, suc, ◌+◌, ◌-◌, ◌^◌, ◌≤◌, ◌<◌, ◌≡◌, refl, ap, ◌⊎◌, inl, inr, ◌&&◌, List, [], ◌∷◌, ◌++◌,
  Option, none, some, ltb, leb, if_cases, if◌then◌else◌, length, drop, arith,
}
use lunacy.Object.Log2.{ceillog2_lem}
use lunacy.Tables.{is_some}
use lunacy.Tables.Hash.{Keys}
use lunacy.Tables.Access.{Indices, slice_entries}
use lunacy.Tables.Reinsert.{inside, spilled}
use lunacy.Tables.Rehash.{max_asize, present, countint, count_entries}
use lunacy.Tables.Slices.{
  prefix, prefix-increment, pow_up, present_nil, present_first, present_from,
}

module _ {K : Type 0} (keys : Keys K) (indices : Indices keys) where
  -- The keys that fit into an array part of a size.
  unfoldable pub fitting : {V : Type 0} → ℕ → List (K × V) → ℕ
  fitting size [] = 0
  fitting size ((k, v) ∷ es) =
      let rest = fitting size es in if inside keys indices size k then suc rest else rest

  pub fitting-append :
      {V : Type 0} (size : ℕ) (es es' : List (K × V))
      → fitting size (es ++ es') ≡ fitting size es + fitting size es'
  unfolding fitting
  fitting-append size [] es' = omega arith
  fitting-append size ((k, v) ∷ es) es' =
      let rest = fitting-append size es es' in ground (arith, rest)

  pub countint-prefix :
      (j : ℕ) (k : K) (nums : List ℕ)
      → prefix j (countint keys indices k nums).0
        ≤ prefix j nums + (if inside keys indices (2 ^ j) k then 1 else 0)
  unfolding countint
  countint-prefix j k nums =
      let a = indices.arrayindex k in
      if_cases
        (λ (r : List ℕ × ℕ).
          prefix j r.0 ≤ prefix j nums + (if inside keys indices (2 ^ j) k then 1 else 0))
        (ltb 0 a && leb a max_asize)
        (λ fits.
          let (m, log, le, less) = ceillog2_lem a (ground (arith, fits)) in
          let more = prefix-increment j nums m in
          let up = pow_up m j in rw log (ground (arith, fits, more, up, le)))
        (λ other. omega arith)

  pub count_entries-prefix :
      {V : Type 0} (j : ℕ) (es : List (K × V)) (nums : List ℕ)
      → prefix j (count_entries keys indices es nums).0 ≤ prefix j nums + fitting (2 ^ j) es
  unfolding count_entries fitting
  count_entries-prefix j [] nums = omega arith
  count_entries-prefix j ((k, v) ∷ es) nums =
      let rest = count_entries-prefix j es (countint keys indices k nums).0 in
      let one = countint-prefix j k nums in ground (arith, rest, one)

  -- The values of the array part up to a limit fit.
  pub slice-fitting :
      {V : Type 0} (b s : ℕ) (array : List (Option V))
      → 0 < s
      → s + length array ≤ 2 ^ 31
      → present array 1 (suc b - s) ≤ fitting b (slice_entries indices.of_index s array)
  unfolding present fitting slice_entries
  slice-fitting b s [] some_keys le = omega (arith, present_nil _ 1 (suc b - s))
  slice-fitting {V} b s (x ∷ array) some_keys le =
      go x (slice-fitting b (suc s) array (omega arith) (omega arith)) (present_from x array b s)
    where
      go :
          (x : Option V)
          → present array 1 (suc b - suc s)
            ≤ fitting b (slice_entries indices.of_index (suc s) array)
          → ((b < s) × (present (x ∷ array) 1 (suc b - s) ≡ 0))
            ⊎ ((s ≤ b)
                × (present (x ∷ array) 1 (suc b - s) ≡ (
                    if is_some x
                    then suc (present array 1 (suc b - suc s))
                    else present array 1 (suc b - suc s))))
          → present (x ∷ array) 1 (suc b - s)
            ≤ fitting b (slice_entries indices.of_index s (x ∷ array))
      go x rest (inl (outer, e)) = omega arith
      go none rest (inr (inner, e)) = omega arith
      go (some v) rest (inr (inner, e)) =
          let at : indices.arrayindex (indices.of_index s) ≡ s =
            indices.arrayindex-of_index s (omega arith) in
          rw at (ground (arith, rest, e))

  pub length-slice_entries :
      {V : Type 0} (s : ℕ) (array : List (Option V))
      → length (slice_entries indices.of_index s array) ≡ present array 1 (length array)
  unfolding present slice_entries
  length-slice_entries s [] = refl
  length-slice_entries s (none ∷ array) =
      omega (arith, length-slice_entries (suc s) array, present_first none array (length array))
  length-slice_entries s (some v ∷ array) =
      omega (arith, length-slice_entries (suc s) array, present_first (some v) array (length array))

  -- The vanishing slice has at most the keys of the array part that do not fit.
  pub spilled-drop :
      {V : Type 0} (size s n : ℕ) (array : List (Option V))
      → spilled keys indices size (slice_entries indices.of_index (s + n) (drop n array))
        ≤ spilled keys indices size (slice_entries indices.of_index s array)
  unfolding spilled slice_entries
  spilled-drop size s zero array =
      let e : s + 0 ≡ s = omega arith in
      let same = ap (λ i. spilled keys indices size (slice_entries indices.of_index i array)) e in
      omega arith
  spilled-drop size s (suc n) [] = omega arith
  spilled-drop size s (suc n) (none ∷ array) =
      let e : s + suc n ≡ suc s + n = omega arith in
      let same =
        ap (λ i. spilled keys indices size (slice_entries indices.of_index i (drop n array))) e in
      omega (arith, spilled-drop size (suc s) n array)
  spilled-drop size s (suc n) (some v ∷ array) =
      let e : s + suc n ≡ suc s + n = omega arith in
      let same =
        ap (λ i. spilled keys indices size (slice_entries indices.of_index i (drop n array))) e in
      let rest = spilled-drop size (suc s) n array in ground (arith, same, rest)

  pub fitting-spilled :
      {V : Type 0} (size : ℕ) (es : List (K × V))
      → fitting size es + spilled keys indices size es ≡ length es
  unfolding fitting spilled
  fitting-spilled size [] = omega arith
  fitting-spilled size ((k, v) ∷ es) = let rest = fitting-spilled size es in ground (arith, rest)

  pub spilled-append :
      {V : Type 0} (size : ℕ) (es es' : List (K × V))
      → spilled keys indices size (es ++ es')
        ≡ spilled keys indices size es + spilled keys indices size es'
  unfolding spilled
  spilled-append size [] es' = omega arith
  spilled-append size ((k, v) ∷ es) es' =
      let rest = spilled-append size es es' in ground (arith, rest)
