-- ===== src/Tables/Border.antt =====
-- `luaH_getn` (src/ltable.c) on the array part.
use lunacy.Base.{
  ℕ, zero, suc, ◌+◌, ◌-◌, ◌/◌, ◌≤◌, ◌<◌, ◌≡◌, refl, true, false, not, List, [], ◌∷◌, Option, ◌⊎◌,
  inl, inr, ltb, ◌&&◌, Bool-cases, if_cases, length, arith,
}
use lunacy.Tables.{is_some, element, bisect, getn}

module _ {V : Type 0} where
  -- `n` is 0 or a key with a value, and the next key has none.
  abbrev pub IsBorder : List (Option V) → ℕ → Type 0
  IsBorder array n =
      ((n ≡ 0) ⊎ (is_some (element array n) ≡ true)) × (is_some (element array (n + 1)) ≡ false)

  bisect-IsBorder :
      (array : List (Option V)) (rounds i j : ℕ)
      → j ≤ i + suc rounds
      → i < j
      → (i ≡ 0) ⊎ (is_some (element array i) ≡ true)
      → is_some (element array j) ≡ false
      → IsBorder array (bisect array rounds i j)
  unfolding bisect
  bisect-IsBorder array zero i j le lt pi pj =
      let next : j ≡ i + 1 = omega arith in (pi, rw next at pj)
  bisect-IsBorder array (suc rounds) i j le lt pi pj =
      let m = (i + j) / 2 in
      if_cases (IsBorder array) (ltb 1 (j - i))
        (λ far. elim (Bool-cases (is_some (element array m))) [
          | inl e ↦ rw e (
              bisect-IsBorder array rounds m j (ground (arith, far)) (ground (arith, far)) (inr e)
                pj)
          | inr e ↦
              rw e
                (bisect-IsBorder array rounds i m (ground (arith, far)) (ground (arith, far)) pi e)
        ])
        (λ near. let next : j ≡ i + 1 = ground (arith, near) in (pi, rw next at pj))

  past_end : (array : List (Option V)) → is_some (element array (suc (length array))) ≡ false
  past_end [] = refl
  past_end (v ∷ array) = past_end array

  -- The length of a table with an empty hash part is a border: 0 or a key that has a value, and the
  -- key after it has none.
  pub getn-IsBorder : (array : List (Option V)) → IsBorder array (getn array)
  unfolding getn
  getn-IsBorder array =
      let j = length array in
      let after : j + 1 ≡ suc j = omega arith in
      let next_key : is_some (element array (j + 1)) ≡ false = rw after (past_end array) in
      let last : (ltb 0 j && not (is_some (element array j))) ≡ false
          → (j ≡ 0) ⊎ (is_some (element array j) ≡ true) =
        λ full. elim (Bool-cases (is_some (element array j))) [
          | inl e ↦ inr e
          | inr e ↦ inl (ground (arith, rw e at full))
        ] in
      if_cases (IsBorder array) (ltb 0 j && not (is_some (element array j)))
        (λ search.
          bisect-IsBorder array j 0 j (omega arith) (ground (arith, search)) (inl refl)
            (ground (arith, search)))
        (λ full. (last full, next_key))
