-- ===== src/Base/Bits.antt =====
-- Laws of `&`, `|` and `^` at every width. Each of the three is a recursion on binary digits:
-- one equation for the lowest digit, from which a word splits into a high and a low field.
mod Step
pub use Step.{bit_or_step, bit_and_step, bit_xor_step}
use Prim.Native.Nat.{ℕ, zero, suc, ◌+◌, ◌-◌, ◌*◌, ◌/◌, ◌%◌, ◌^◌, ◌≤◌, ◌<◌, min, max}
use Prim.Native.Nat.{bit_and, bit_or, bit_xor}
use mathlib.Core.Path.{◌≡◌, refl, ap}
use native.Mathlib.Nat.{pow-suc, one-le-pow}
use native.Mathlib.Omega.{arith}

scale : (q k : ℕ) → q * 2 ^ suc k ≡ 2 * (q * 2 ^ k)
scale q k = omega (arith, ap (λ (t : ℕ). q * t) (pow-suc 2 k))

-- An operation on words that works digit by digit, `f` on each pair of digits.
module _ (op f : ℕ → ℕ → ℕ) (step : (a b : ℕ) → op a b ≡ op (a / 2) (b / 2) * 2 + f (a % 2) (b % 2))
    (origin : op 0 0 ≡ 0) where
  op_fields :
      (k q r q' r' : ℕ)
      → r < 2 ^ k
      → r' < 2 ^ k
      → op (q * 2 ^ k + r) (q' * 2 ^ k + r') ≡ op q q' * 2 ^ k + op r r'
  op_fields zero q r q' r' h h' =
      let e : r ≡ 0 = omega arith in let e' : r' ≡ 0 = omega arith in ground (arith, origin)
  op_fields (suc k) q r q' r' h h' = ground (
    arith,
    step (q * 2 ^ suc k + r) (q' * 2 ^ suc k + r'),
    step r r',
    scale q k,
    scale q' k,
    scale (op q q') k,
    pow-suc 2 k,
    op_fields k q (r / 2) q' (r' / 2) (omega (arith, pow-suc 2 k)) (omega (arith, pow-suc 2 k)),
  )

  op_bound :
      ((x y : ℕ) → x < 2 → y < 2 → f x y < 2) → (k a b : ℕ) → a < 2 ^ k → b < 2 ^ k → op a b < 2 ^ k
  op_bound digit zero a b h h' =
      let e : a ≡ 0 = omega arith in let e' : b ≡ 0 = omega arith in ground (arith, origin)
  op_bound digit (suc k) a b h h' = omega (
    arith,
    step a b,
    pow-suc 2 k,
    op_bound digit k (a / 2) (b / 2) (omega (arith, pow-suc 2 k)) (omega (arith, pow-suc 2 k)),
    digit (a % 2) (b % 2) (omega arith) (omega arith),
  )

pub bit_and_fields :
    (k q r q' r' : ℕ)
    → r < 2 ^ k
    → r' < 2 ^ k
    → bit_and (q * 2 ^ k + r) (q' * 2 ^ k + r') ≡ bit_and q q' * 2 ^ k + bit_and r r'
bit_and_fields = op_fields bit_and min bit_and_step refl

pub bit_or_fields :
    (k q r q' r' : ℕ)
    → r < 2 ^ k
    → r' < 2 ^ k
    → bit_or (q * 2 ^ k + r) (q' * 2 ^ k + r') ≡ bit_or q q' * 2 ^ k + bit_or r r'
bit_or_fields = op_fields bit_or max bit_or_step refl

pub bit_or-lt : (k a b : ℕ) → a < 2 ^ k → b < 2 ^ k → bit_or a b < 2 ^ k
bit_or-lt = op_bound bit_or max bit_or_step refl (λ x y h h'. omega arith)

pub bit_xor-lt : (k a b : ℕ) → a < 2 ^ k → b < 2 ^ k → bit_xor a b < 2 ^ k
bit_xor-lt = op_bound bit_xor (λ x y. (x + y) % 2) bit_xor_step refl (λ x y h h'. omega arith)

below : (n a : ℕ) → a ≤ n → bit_and a 0 ≡ 0
below n zero h = refl
below zero (suc a) h = absurd (omega arith)
below (suc n) (suc a) h = omega (arith, bit_and_step (suc a) 0, below n (suc a / 2) (omega arith))

pub bit_and-zero : (a : ℕ) → bit_and a 0 ≡ 0
bit_and-zero a = below a a (omega arith)

or_below : (n a : ℕ) → a ≤ n → bit_or a 0 ≡ a
or_below n zero h = refl
or_below zero (suc a) h = absurd (omega arith)
or_below (suc n) (suc a) h =
    omega (arith, bit_or_step (suc a) 0, or_below n (suc a / 2) (omega arith))

pub bit_or-zero : (a : ℕ) → bit_or a 0 ≡ a
bit_or-zero a = or_below a a (omega arith)

zero_or_below : (n a : ℕ) → a ≤ n → bit_or 0 a ≡ a
zero_or_below n zero h = refl
zero_or_below zero (suc a) h = absurd (omega arith)
zero_or_below (suc n) (suc a) h =
    omega (arith, bit_or_step 0 (suc a), zero_or_below n (suc a / 2) (omega arith))

pub zero-bit_or : (a : ℕ) → bit_or 0 a ≡ a
zero-bit_or a = zero_or_below a a (omega arith)

all_ones : (k r : ℕ) → r < 2 ^ k → bit_and r (2 ^ k - 1) ≡ r
all_ones zero r h = let e : r ≡ 0 = omega arith in rw e
all_ones (suc k) r h =
    let half : (2 ^ suc k - 1) / 2 ≡ 2 ^ k - 1 = omega (arith, pow-suc 2 k, one-le-pow k 2) in
    let odd : (2 ^ suc k - 1) % 2 ≡ 1 = omega (arith, pow-suc 2 k, one-le-pow k 2) in
    ground (arith, bit_and_step r (2 ^ suc k - 1), all_ones k (r / 2) (omega (arith, pow-suc 2 k)))

-- A mask of `k` low bits is the remainder by `2 ^ k`.
pub bit_and_mask : (k a : ℕ) → bit_and a (2 ^ k - 1) ≡ a % 2 ^ k
bit_and_mask k a =
    let room = one-le-pow k 2 in
    let split =
      bit_and_fields k (a / 2 ^ k) (a % 2 ^ k) 0 (2 ^ k - 1) (omega arith) (omega arith) in
    ground (arith, split, bit_and-zero (a / 2 ^ k), all_ones k (a % 2 ^ k))

-- A high field and a low field that do not overlap: `|` is the sum.
pub bit_or_disjoint : (k q r : ℕ) → r < 2 ^ k → bit_or (q * 2 ^ k) r ≡ q * 2 ^ k + r
bit_or_disjoint k q r h =
    let e = bit_or_fields k q 0 0 r (omega (arith, one-le-pow k 2)) h in
    ground (arith, e, bit_or-zero q, zero-bit_or r)

pub bit_or_above : (k q r : ℕ) → r < 2 ^ k → bit_or r (q * 2 ^ k) ≡ r + q * 2 ^ k
bit_or_above k q r h =
    let e = bit_or_fields k 0 r q 0 h (omega (arith, one-le-pow k 2)) in
    ground (arith, e, bit_or-zero r, zero-bit_or q)
