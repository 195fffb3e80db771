-- ===== src/Tables/Hash/Measure.antt =====
-- A bound on the length of a chain of the hash part (src/ltable.c): nodes get lower along a chain.
use lunacy.Base.{ℕ, zero, suc, ◌≤◌, ◌<◌, ◌≡◌, ◌⊎◌, inl, inr, ltb, if◌then◌else◌, arith}

-- How many of the first `size` nodes are lower than `h`.
pub below : (ℕ → ℕ) → ℕ → ℕ → ℕ
below height zero h = 0
below height (suc size) h =
    let rest = below height size h in if ltb (height size) h then suc rest else rest

below-le : (height : ℕ → ℕ) (size h h' : ℕ) → h ≤ h' → below height size h ≤ below height size h'
unfolding below
below-le height zero h h' le = omega arith
below-le height (suc size) h h' le = let rest = below-le height size h h' le in ground arith

pub below-lt :
    (height : ℕ → ℕ) (size j h : ℕ)
    → j < size
    → height j < h
    → below height size (height j) < below height size h
unfolding below
below-lt height zero j h inside less = absurd (omega arith)
below-lt height (suc size) j h inside less = elim (last j size inside) [
  | inl same ↦ let rest = below-le height size (height j) h (omega arith) in ground arith
  | inr more ↦ let rest = below-lt height size j h more less in ground arith
]
  where
    last : (x y : ℕ) → x < suc y → (x ≡ y) ⊎ (x < y)
    last x y h = ground arith

pub below-size : (height : ℕ → ℕ) (size h : ℕ) → below height size h ≤ size
unfolding below
below-size height zero h = omega arith
below-size height (suc size) h = let rest = below-size height size h in ground arith
