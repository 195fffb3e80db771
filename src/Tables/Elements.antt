-- ===== src/Tables/Elements.antt =====
-- The elements of the array part (src/ltable.c) under the list operations of `resize`.
use lunacy.Base.{
  ℕ, zero, suc, ◌+◌, ◌-◌, ◌≤◌, ◌<◌, ◌≡◌, ◌≢◌, refl, sym, ap, ◌∙◌, ◌⊎◌, inl, inr, List, [], ◌∷◌,
  ◌++◌, Option, none, some, Bool-cases, length, set, take, drop, replicate, arith,
}
use lunacy.Tables.{element}
use lunacy.Tables.Hash.{Keys}

abbrev pub or_else : {V : Type 0} → Option V → Option V → Option V
or_else none b = b
or_else (some v) b = some v

≤-cases : (i a : ℕ) → (i ≤ a) ⊎ (a < i)
≤-cases i a = ground arith

module _ {V : Type 0} where
  pub element_zero : (xs : List (Option V)) → element xs 0 ≡ none
  element_zero [] = refl
  element_zero (x ∷ xs) = refl

  pub element-past : (xs : List (Option V)) (j : ℕ) → length xs < j → element xs j ≡ none
  element-past [] j past = refl
  element-past (x ∷ xs) zero past = refl
  element-past (x ∷ xs) (suc zero) past = absurd (omega arith)
  element-past (x ∷ xs) (suc (suc j)) past = element-past xs (suc j) (omega arith)

  pub element-take :
      (n : ℕ) (xs : List (Option V)) (j : ℕ) → j ≤ n → element (take n xs) j ≡ element xs j
  element-take zero [] j le = refl
  element-take zero (x ∷ xs) zero le = refl
  element-take zero (x ∷ xs) (suc j) le = absurd (omega arith)
  element-take (suc n) [] j le = refl
  element-take (suc n) (x ∷ xs) zero le = refl
  element-take (suc n) (x ∷ xs) (suc zero) le = refl
  element-take (suc n) (x ∷ xs) (suc (suc j)) le = element-take n xs (suc j) (omega arith)

  pub element-replicate : (n j : ℕ) → element {V = V} (replicate n none) j ≡ none
  element-replicate zero j = refl
  element-replicate (suc n) zero = refl
  element-replicate (suc n) (suc zero) = refl
  element-replicate (suc n) (suc (suc j)) = element-replicate n (suc j)

  pub element-append :
      (xs : List (Option V)) (n j : ℕ) → element (xs ++ replicate n none) j ≡ element xs j
  element-append [] n j = element-replicate n j
  element-append (x ∷ xs) n zero = refl
  element-append (x ∷ xs) n (suc zero) = refl
  element-append (x ∷ xs) n (suc (suc j)) = element-append xs n (suc j)

  pub element-drop :
      (n : ℕ) (xs : List (Option V)) (j : ℕ) → element (drop n xs) (suc j) ≡ element xs (n + suc j)
  element-drop zero xs j = ap (element xs) (omega arith)
  element-drop (suc n) [] j = refl
  element-drop (suc n) (x ∷ xs) j =
      let e : suc n + suc j ≡ suc (suc (n + j)) = omega arith in
      let f : n + suc j ≡ suc (n + j) = omega arith in
      element-drop n xs j ∙ (ap (element xs) f ∙ sym (ap (element (x ∷ xs)) e))

  pub element-set_self :
      (xs : List (Option V)) (i : ℕ) (v : Option V)
      → i < length xs
      → element (set xs i v) (suc i) ≡ v
  element-set_self [] i v less = absurd (omega arith)
  element-set_self (x ∷ xs) zero v less = refl
  element-set_self (x ∷ xs) (suc i) v less = element-set_self xs i v (omega arith)

  pub element-set_ne :
      (xs : List (Option V)) (i j : ℕ) (v : Option V)
      → j ≢ suc i
      → element (set xs i v) j ≡ element xs j
  element-set_ne [] i j v off = refl
  element-set_ne (x ∷ xs) zero zero v off = refl
  element-set_ne (x ∷ xs) zero (suc zero) v off = absurd (off refl)
  element-set_ne (x ∷ xs) zero (suc (suc j)) v off = refl
  element-set_ne (x ∷ xs) (suc i) zero v off = refl
  element-set_ne (x ∷ xs) (suc i) (suc zero) v off = refl
  element-set_ne (x ∷ xs) (suc i) (suc (suc j)) v off =
      element-set_ne xs i (suc j) v (λ e. off (ap suc e))

  pub element-at_first :
      (x : Option V) (xs : List (Option V)) (i a : ℕ) → a ≡ i → element (x ∷ xs) (suc a - i) ≡ x
  element-at_first x xs i a e = let one : suc a - i ≡ 1 = omega arith in ap (element (x ∷ xs)) one

  pub element-no_rest : (xs : List (Option V)) (i a : ℕ) → a ≡ i → element xs (suc a - suc i) ≡ none
  element-no_rest xs i a e =
      let z : suc a - suc i ≡ 0 = omega arith in ap (element xs) z ∙ element_zero xs

  pub element-in_rest :
      (x : Option V) (xs : List (Option V)) (i a : ℕ)
      → a ≢ i
      → element xs (suc a - suc i) ≡ element (x ∷ xs) (suc a - i)
  element-in_rest x xs i a off = elim (≤-cases i a) [
    | inl le ↦
        let e : suc a - i ≡ suc (suc (a - suc i)) = omega arith in
        let f : suc a - suc i ≡ suc (a - suc i) = omega arith in
        ap (element xs) f ∙ sym (ap (element (x ∷ xs)) e)
    | inr less ↦
        let e : suc a - i ≡ 0 = omega arith in
        let f : suc a - suc i ≡ 0 = omega arith in
        (ap (element xs) f ∙ element_zero xs) ∙ sym (ap (element (x ∷ xs)) e)
  ]

-- A key test gives the same either way.
pub raw_equal_swap :
    {K : Type 0} (keys : Keys K) (k l : K) → keys.raw_equal k l ≡ keys.raw_equal l k
raw_equal_swap keys k l = elim (Bool-cases (keys.raw_equal k l)) [
  | inl e ↦ e ∙ sym (keys.raw_equal_sym k l e)
  | inr e ↦ elim (Bool-cases (keys.raw_equal l k)) [
    | inl f ↦ let g = keys.raw_equal_sym l k f in absurd cc
    | inr f ↦ e ∙ sym f
  ]
]
