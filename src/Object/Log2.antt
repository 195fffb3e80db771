-- ===== src/Object/Log2.antt =====
-- `luaO_log2` and `ceillog2` (src/lobject.c, src/lobject.h) as integer logarithms.
use mathlib.Core.Logic.{dif_pos, dif_neg}
use native.Mathlib.Bridge.{le_prop}
use native.Mathlib.Decide.{dec_le}
use native.Mathlib.Nat.{pow-suc}
use native.Mathlib.Numerals.{towards_suc, add-one}
use lunacy.Base.{
  passes, passes-below, ℕ, zero, suc, ◌+◌, ◌-◌, ◌*◌, ◌^◌, ◌≤◌, ◌<◌, ◌≡◌, refl, Bool, true, ◌&&◌,
  ◌||◌, ltb, leb, ◌==◌, arith, get_or, ◌>>>◌, ap, ◌∙◌,
}
use lunacy.Base.Int.{pos, negsuc, ◌+ℤ◌}
use lunacy.Base.Order.{Acc, lt_wf}
use lunacy.Object.{log_2, log2_loop, log2, ceillog2, shr_smaller}

abbrev entry : ℕ → ℕ
entry x = get_or log_2 x 0

abbrev good_entry : ℕ → Bool
good_entry x = x == 0 || (leb (2 ^ entry x) (2 * x) && (ltb x (2 ^ entry x) && ltb 0 (entry x)))

table_good : passes good_entry 256 ≡ true
unfolding passes log_2
table_good = refl

entry_good : (x : ℕ) → 0 < x → x < 256 → (2 ^ entry x ≤ 2 * x) × (x < 2 ^ entry x) × (0 < entry x)
entry_good x big h = ground (arith, passes-below good_entry 256 x h table_good)

-- `n` is the integer logarithm of `x`.
abbrev pub IsLog2 : ℕ → ℕ → Type 0
IsLog2 x n = (2 ^ n ≤ x) × (x < 2 ^ (n + 1))

pow-add8 : (n : ℕ) → 2 ^ (n + 8) ≡ 256 * 2 ^ n
pow-add8 n = simp towards_suc (omega arith)

IsLog2-shr : (x n : ℕ) → IsLog2 (x >>> 8) n → IsLog2 x (n + 8)
IsLog2-shr x n (lo, hi) =
    let e : n + 8 + 1 ≡ n + 1 + 8 = omega arith in
    (omega (arith, pow-add8 n), rw (e, pow-add8 (n + 1)) (omega arith))

pred_suc : (t : ℕ) → suc t - 1 ≡ t
pred_suc t = omega arith

drop_one : (t : ℕ) → suc t - 1 + 1 ≡ suc t
drop_one t = omega arith

IsLog2-entry : (x : ℕ) → 0 < x → x < 256 → IsLog2 x (entry x - 1)
IsLog2-entry x h k = go (entry x) (entry_good x h k)
  where
    go : (t : ℕ) → (2 ^ t ≤ 2 * x) × (x < 2 ^ t) × (0 < t) → IsLog2 x (t - 1)
    go zero (lo, hi, z) = absurd (omega arith)
    go (suc t) (lo, hi, z) = (rw (pred_suc t) (omega (arith, pow-suc 2 t)), rw (drop_one t) hi)

regroup : (n l : ℕ) → n + (l + 8) ≡ n + 8 + l
regroup n l = omega arith

last_step : (l t : ℕ) → 0 < t → (negsuc 0 +ℤ pos l) +ℤ pos t ≡ pos (t - 1 + l)
last_step l t h = ground arith

next_step : (l : ℕ) → (negsuc 0 +ℤ pos l) +ℤ pos 8 ≡ negsuc 0 +ℤ pos (l + 8)
next_step l = ground arith

log2_loop-IsLog2 :
    (x l : ℕ) (w : Acc ◌<◌ x)
    → 0 < x
    → (n : ℕ) × (log2_loop x (negsuc 0 +ℤ pos l) w ≡ pos (n + l)) × IsLog2 x n
unfolding log2_loop
log2_loop-IsLog2 x l (Acc.intro _ smaller) h = elim (dec_le 256 x) [
  | no p ↦ (
    entry x - 1,
    rw (dif_neg _ p) (last_step l (entry x) (entry_good x h (omega arith)).2),
    IsLog2-entry x h (omega arith),
  )
  | yes p ↦
      let (n, run, is_log) =
        log2_loop-IsLog2 (x >>> 8) (l + 8) (smaller (x >>> 8) (shr_smaller x p)) (omega arith) in
      (
        n + 8,
        rw (dif_pos _ le_prop p, next_step l, run) (ap pos (regroup n l)),
        IsLog2-shr x n is_log,
      )
]

log2_run : (x : ℕ) → log2 x ≡ log2_loop x (negsuc 0) (lt_wf.apply x)
unfolding log2
log2_run x = refl

-- The logarithm of 0 is -1.
log2_zero : log2 0 ≡ negsuc 0
unfolding log2
log2_zero = refl

-- The logarithm of a number that is not 0 is `n` with `2 ^ n <= x < 2 ^ (n + 1)`.
pub log2_lem : (x : ℕ) → 0 < x → (n : ℕ) × (log2 x ≡ pos n) × IsLog2 x n
log2_lem x h =
    let (n, run, is_log) = log2_loop-IsLog2 x 0 (lt_wf.apply x) h in
    let start : negsuc 0 +ℤ pos 0 ≡ negsuc 0 = refl in
    let e : n + 0 ≡ n = omega arith in (n, log2_run x ∙ (rw (e, start) at run), is_log)

next_pos : (n : ℕ) → pos n +ℤ pos 1 ≡ pos (n + 1)
next_pos n = ground arith

-- `ceillog2` of a size that is not 0 is the least `n` for which `2 ^ n` slots are enough: half of them
-- would not be.
pub ceillog2_lem : (x : ℕ) → 0 < x → (n : ℕ) × (ceillog2 x ≡ pos n) × (x ≤ 2 ^ n) × (2 ^ n < 2 * x)
unfolding ceillog2
ceillog2_lem zero h = absurd (omega arith)
ceillog2_lem (suc zero) h = (0, rw log2_zero, omega arith, omega arith)
ceillog2_lem (suc (suc y)) h =
    let (n, run, (lo, hi)) = log2_lem (suc y) (omega arith) in
    let e : suc (suc y) - 1 ≡ suc y = omega arith in
    let next : 2 ^ (n + 1) ≡ 2 * 2 ^ n = rw add-one (omega (arith, pow-suc 2 n)) in
    (n + 1, rw (e, run) (next_pos n), omega arith, omega arith)
