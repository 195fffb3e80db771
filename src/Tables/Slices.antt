-- ===== src/Tables/Slices.antt =====
-- The counts of the slices (2 ^ (i - 1), 2 ^ i] and of the elements in `rehash` (src/ltable.c).
use native.Mathlib.Nat.{mul_assoc, pow-le-pow_right, le-mul_of_pos_right, pow-succ', one-le-pow}
use lunacy.Base.{
  ℕ, zero, suc, ◌+◌, ◌-◌, ◌*◌, ◌/◌, ◌^◌, ◌≤◌, ◌<◌, ◌≡◌, refl, sym, ap, ◌∙◌, ◌⊎◌, inl, inr, ◌&&◌,
  List, [], ◌∷◌, Option, ltb, leb, ◌==◌, if_cases, if_both, Bool-cases, if◌then◌else◌, length,
  replicate, arith,
}
use lunacy.Tables.{is_some, computesizes_loop, computesizes}
use lunacy.Tables.Rehash.{increment, present, numusearray_loop}

-- The counts of the slices up to the one of 2 ^ `j`.
abbrev pub prefix : ℕ → List ℕ → ℕ
prefix j [] = 0
prefix zero (c ∷ nums) = c
prefix (suc j) (c ∷ nums) = c + prefix j nums

pub prefix-zeros : (j n : ℕ) → prefix j (replicate n 0) ≡ 0
prefix-zeros j zero = refl
prefix-zeros zero (suc n) = refl
prefix-zeros (suc j) (suc n) = omega (arith, prefix-zeros j n)

pub prefix-increment :
    (j : ℕ) (nums : List ℕ) (i : ℕ)
    → prefix j (increment nums i) ≤ prefix j nums + (if leb i j then 1 else 0)
prefix-increment j [] i = omega arith
prefix-increment zero (c ∷ nums) zero = ground arith
prefix-increment (suc j) (c ∷ nums) zero = ground arith
prefix-increment zero (c ∷ nums) (suc i) = ground arith
prefix-increment (suc j) (c ∷ nums) (suc i) = ground (arith, prefix-increment j nums i)

double-pow : (t j : ℕ) → t * 2 * 2 ^ j ≡ t * 2 ^ suc j
double-pow t j = mul_assoc t 2 (2 ^ j) ∙ ap (λ n. t * n) (sym (pow-succ' 2 j))

-- What `computesizes` gives is an array of 2 ^ `j` elements with the keys of its slices, or none.
abbrev Chosen : ℕ → ℕ → ℕ → ℕ → List ℕ → ℕ × ℕ → Type 0
Chosen t a na n nums r =
    ((r.0 ≡ n) × (r.1 ≡ na))
    ⊎ ((j : ℕ) × (j < length nums) × (r.0 ≡ t * 2 ^ j) × (r.1 ≡ a + prefix j nums))

skip-Chosen :
    (t a na n c : ℕ) (nums : List ℕ) (r : ℕ × ℕ)
    → Chosen (t * 2) (a + c) na n nums r
    → Chosen t a na n (c ∷ nums) r
skip-Chosen t a na n c nums r (inl same) = inl same
skip-Chosen t a na n c nums r (inr (j, less, size, count)) =
    inr (suc j, omega arith, size ∙ double-pow t j, omega arith)

take-Chosen :
    (t a na n c : ℕ) (nums : List ℕ) (r : ℕ × ℕ)
    → Chosen (t * 2) (a + c) (a + c) t nums r
    → Chosen t a na n (c ∷ nums) r
take-Chosen t a na n c nums r (inl (size, count)) = inr (0, omega arith, size ∙ omega arith, count)
take-Chosen t a na n c nums r (inr (j, less, size, count)) =
    inr (suc j, omega arith, size ∙ double-pow t j, omega arith)

loop-Chosen :
    (narray : ℕ) (nums : List ℕ) (t a na n : ℕ)
    → Chosen t a na n nums (computesizes_loop narray nums t a na n)
unfolding computesizes_loop
loop-Chosen narray [] t a na n = inl (refl, refl)
loop-Chosen narray (c ∷ nums) t a na n =
    let step : (if ltb 0 c then a + c else a) ≡ a + c = ground arith in
    elim (Bool-cases (ltb 0 c && ltb (t / 2) (a + c))) [
      | inl more ↦
          rw (step, more)
            (if_both (Chosen t a na n (c ∷ nums)) (ltb (t / 2) narray)
              (take-Chosen t a na n c nums _ (
                if_both (Chosen (t * 2) (a + c) (a + c) t nums) (a + c == narray) (inl (refl, refl))
                  (loop-Chosen narray nums (t * 2) (a + c) (a + c) t)))
              (inl (refl, refl)))
      | inr no_more ↦
          rw (step, no_more)
            (if_both (Chosen t a na n (c ∷ nums)) (ltb (t / 2) narray)
              (skip-Chosen t a na n c nums _ (
                if_both (Chosen (t * 2) (a + c) na n nums) (a + c == narray) (inl (refl, refl))
                  (loop-Chosen narray nums (t * 2) (a + c) na n)))
              (inl (refl, refl)))
    ]

pub computesizes-Chosen :
    (nums : List ℕ) (narray : ℕ)
    → (((computesizes nums narray).0 ≡ 0) × ((computesizes nums narray).1 ≡ 0))
      ⊎ ((j : ℕ) × (j < length nums)
          × ((computesizes nums narray).0 ≡ 2 ^ j)
          × ((computesizes nums narray).1 ≡ prefix j nums))
unfolding computesizes
computesizes-Chosen nums narray = elim (loop-Chosen narray nums 1 0 0 0) [
  | inl same ↦ inl same
  | inr (j, less, size, count) ↦ inr (j, less, size ∙ omega arith, count ∙ omega arith)
]

-- The values among the elements.
pub present-append :
    {V : Type 0} (array : List (Option V)) (i m n : ℕ)
    → present array i (m + n) ≡ present array i m + present array (i + m) n
unfolding present
present-append array i zero n =
    let here : i + 0 ≡ i = omega arith in
    let all : 0 + n ≡ n = omega arith in rw (here, all) (omega arith)
present-append array i (suc m) n =
    let next : suc m + n ≡ suc (m + n) = omega arith in
    let on : i + suc m ≡ suc i + m = omega arith in
    let rest = present-append array (suc i) m n in rw (next, on) (ground (arith, rest))

present_mono :
    {V : Type 0} (array : List (Option V)) (i m n : ℕ)
    → m ≤ n
    → present array i m ≤ present array i n
present_mono array i m n le =
    let e : present array i (m + (n - m)) ≡ present array i n =
      ap (present array i) (omega arith) in
    omega (arith, e, present-append array i m (n - m))

-- The last key of a slice.
abbrev pub limit : ℕ → ℕ → ℕ
limit sizearray ttlg = if ltb sizearray ttlg then sizearray else ttlg

≤-cases : (s b : ℕ) → (s ≤ b) ⊎ (b < s)
≤-cases s b = ground arith

-- How many keys a slice has from `i` on.
abbrev width : ℕ → ℕ → ℕ → ℕ
width sizearray ttlg i = suc (limit sizearray ttlg) - i

width-le : (sizearray ttlg i : ℕ) → i ≤ ttlg → 0 < ttlg → i + width sizearray ttlg i ≤ ttlg * 2
width-le sizearray ttlg i le some_keys = ground arith

one-width : (sizearray ttlg i : ℕ) → width sizearray ttlg i ≤ suc (ttlg * 2 ^ 0) - i
one-width sizearray ttlg i = ground arith

wide-width : (sizearray ttlg i j : ℕ) → width sizearray ttlg i ≤ suc (ttlg * 2 ^ suc j) - i
wide-width sizearray ttlg i j =
    let up = le-mul_of_pos_right ttlg (one-le-pow (suc j) 2 (omega arith)) in ground (arith, up)

-- The values of a slice and those of the later ones.
present-split :
    {V : Type 0} (array : List (Option V)) (i w x : ℕ)
    → w ≤ suc x - i
    → present array i w + present array (i + w) (suc x - (i + w)) ≡ present array i (suc x - i)
present-split array i w x le =
    let e : present array i (w + (suc x - (i + w))) ≡ present array i (suc x - i) =
      ap (present array i) (omega arith) in
    omega (arith, e, present-append array i w (suc x - (i + w)))

pub loop-prefix :
    {V : Type 0} (array : List (Option V)) (nums : List ℕ) (ttlg i j : ℕ)
    → i ≤ ttlg
    → 0 < ttlg
    → prefix j (numusearray_loop array nums ttlg i).0
      ≤ prefix j nums + present array i (suc (ttlg * 2 ^ j) - i)
unfolding numusearray_loop
loop-prefix array [] ttlg i j le some_keys = omega arith
loop-prefix array (c ∷ nums) ttlg i zero le some_keys =
    let w = width (length array) ttlg i in
    let more = present_mono array i w (suc (ttlg * 2 ^ 0) - i) (one-width (length array) ttlg i) in
    if_both (λ (r : List ℕ × ℕ). prefix 0 r.0 ≤ c + present array i (suc (ttlg * 2 ^ 0) - i))
      (ltb (length array) ttlg && ltb (limit (length array) ttlg) i) (omega arith) (omega arith)
loop-prefix array (c ∷ nums) ttlg i (suc j) le some_keys =
    let w = width (length array) ttlg i in
    let rest =
      loop-prefix array nums (ttlg * 2) (i + w) j (width-le (length array) ttlg i le some_keys)
        (omega arith) in
    let split = present-split array i w (ttlg * 2 ^ suc j) (wide-width (length array) ttlg i j) in
    let e = ap (λ x. present array (i + w) (suc x - (i + w))) (double-pow ttlg j) in
    if_both
      (λ (r : List ℕ × ℕ).
        prefix (suc j) r.0 ≤ c + prefix j nums + present array i (suc (ttlg * 2 ^ suc j) - i))
      (ltb (length array) ttlg && ltb (limit (length array) ttlg) i) (omega arith) (omega arith)

pub loop-present :
    {V : Type 0} (array : List (Option V)) (nums : List ℕ) (ttlg i : ℕ)
    → i ≤ ttlg
    → 0 < ttlg
    → (ttlg < 2 * i) ⊎ (length array < i)
    → 2 * length array ≤ ttlg * 2 ^ length nums
    → (numusearray_loop array nums ttlg i).1 ≡ present array i (suc (length array) - i)
unfolding numusearray_loop present
loop-present array [] ttlg i le some_keys at enough =
    let none_left : suc (length array) - i ≡ 0 = ground arith in rw none_left refl
loop-present array (c ∷ nums) ttlg i le some_keys at enough =
    let w = width (length array) ttlg i in
    let e = double-pow ttlg (length nums) in
    let rest =
      loop-present array nums (ttlg * 2) (i + w) (width-le (length array) ttlg i le some_keys)
        (omega arith) (ground arith) (omega arith) in
    let split = present-split array i w (length array) (ground arith) in
    if_cases (λ (r : List ℕ × ℕ). r.1 ≡ present array i (suc (length array) - i))
      (ltb (length array) ttlg && ltb (limit (length array) ttlg) i)
      (λ stop.
        let none_left : suc (length array) - i ≡ 0 = ground (arith, stop) in rw none_left refl)
      (λ on. omega arith)

pub pow_up : (m j : ℕ) → m ≤ j → 2 ^ m ≤ 2 ^ j
pow_up m j le = pow-le-pow_right (omega arith) le

pub present_nil : (V : Type 0) (i count : ℕ) → present {V = V} [] i count ≡ 0
unfolding present
present_nil V i zero = refl
present_nil V i (suc count) = present_nil V (suc i) count

present_rest :
    {V : Type 0} (x : Option V) (array : List (Option V)) (i count : ℕ)
    → present (x ∷ array) (suc (suc i)) count ≡ present array (suc i) count
unfolding present
present_rest x array i zero = refl
present_rest x array i (suc count) = let rest = present_rest x array (suc i) count in rw rest refl

pub present_first :
    {V : Type 0} (x : Option V) (array : List (Option V)) (count : ℕ)
    → present (x ∷ array) 1 (suc count)
      ≡ (if is_some x then suc (present array 1 count) else present array 1 count)
unfolding present
present_first x array count = let rest = present_rest x array 0 count in ground (arith, rest)

-- The count of the elements with keys from `s` to `b`.
pub present_from :
    {V : Type 0} (x : Option V) (array : List (Option V)) (b s : ℕ)
    → ((b < s) × (present (x ∷ array) 1 (suc b - s) ≡ 0))
      ⊎ ((s ≤ b)
          × (present (x ∷ array) 1 (suc b - s) ≡ (
              if is_some x
              then suc (present array 1 (suc b - suc s))
              else present array 1 (suc b - suc s))))
unfolding present
present_from x array b s = elim (≤-cases s b) [
  | inl inner ↦
      let one : suc b - s ≡ suc (suc b - suc s) = omega arith in
      inr (inner, ap (present (x ∷ array) 1) one ∙ present_first x array (suc b - suc s))
  | inr outer ↦ let z : suc b - s ≡ 0 = omega arith in inl (outer, ap (present (x ∷ array) 1) z)
]
