-- ===== src/Object/FloatByte.antt =====
-- `luaO_int2fb` and `luaO_fb2int` (src/lobject.c), one after the other.
use mathlib.Core.Logic.{dif_pos, dif_neg}
use native.Mathlib.Decide.{dec_le}
use native.Mathlib.Nat.{pow-suc, one-le-pow}
use native.Mathlib.Numerals.{add-one}
use native.Mathlib.Bridge.{le_prop}
use lunacy.Base.{
  ℕ, zero, suc, ◌+◌, ◌-◌, ◌*◌, ◌/◌, ◌^◌, ◌≤◌, ◌<◌, ◌≡◌, ◌⊎◌, inl, inr, refl, ap, arith, ◌∙◌,
}
use lunacy.Base.Bits.{bit_or_disjoint, bit_and_mask}
use lunacy.Base.Order.{Acc, lt_wf}
use lunacy.Object.{Scaled, half_up, half_smaller, shrink, int2fb, fb2int, pack_byte}

pow_next : (e : ℕ) → 2 ^ (e + 1) ≡ 2 * 2 ^ e
pow_next e = rw add-one (omega (arith, pow-suc 2 e))

-- `x * 2 ^ e` is `x0` rounded up to a multiple of `2 ^ e`. A mantissa of 8 comes from 16, so it is
-- off by half a unit at most.
abbrev Rounds : ℕ → ℕ → ℕ → Type 0
Rounds x0 x e =
    (x0 ≤ x * 2 ^ e)
    × (x * 2 ^ e < x0 + 2 ^ e)
    × (x ≡ 8 → 2 * (x * 2 ^ e) < 2 * x0 + 2 ^ e)
    × ((e ≡ 0) ⊎ (8 ≤ x))

half_double : (x : ℕ) → x < 2 ^ 30 + 1 → (2 * half_up x ≡ x) ⊎ (2 * half_up x ≡ x + 1)
half_double x h = omega arith

half_scaled :
    (x e : ℕ)
    → x < 2 ^ 30 + 1
    → (half_up x * 2 ^ (e + 1) ≡ x * 2 ^ e) ⊎ (half_up x * 2 ^ (e + 1) ≡ x * 2 ^ e + 2 ^ e)
half_scaled x e h =
    let y = half_up x in
    let next = ap (λ (t : ℕ). y * t) (pow_next e) in
    elim (half_double x h) [
      | inl d ↦ inl (omega (arith, next, ap (λ (t : ℕ). t * 2 ^ e) d))
      | inr d ↦ inr (omega (arith, next, ap (λ (t : ℕ). t * 2 ^ e) d))
    ]

Rounds-half : (x0 x e : ℕ) → 16 ≤ x → x ≤ 2 ^ 30 → Rounds x0 x e → Rounds x0 (half_up x) (e + 1)
Rounds-half x0 x e big small (up, close, eight, unit) =
    let s = half_scaled x e (omega arith) in
    (
      omega (arith, s),
      omega (arith, s, pow_next e),
      λ q.
          let is16 : x ≡ 16 = omega arith in
          omega
            (arith, pow_next e, ap (λ (t : ℕ). t * 2 ^ (e + 1)) q, ap (λ (t : ℕ). t * 2 ^ e) is16),
      inr (omega arith),
    )

-- What the loop ends with, from `x0`.
pub record IsShrunk (x0 : ℕ) (s : Scaled) : Type 0 where
  pub mantissa : s.x < 16
  pub rounds : Rounds x0 s.x s.e
  pub exponent : s.e ≤ 30

shrink-IsShrunk :
    (x0 x e k : ℕ) (w : Acc ◌<◌ x)
    → Rounds x0 x e
    → x ≤ 2 ^ 30
    → x ≤ 2 ^ k
    → k + e ≡ 30
    → IsShrunk x0 (shrink x e w)
unfolding shrink
shrink-IsShrunk x0 x e zero (Acc.intro _ smaller) r small fits total = elim (dec_le 16 x) [
  | yes p ↦ absurd (omega arith)
  | no p ↦ rw (dif_neg _ p) (record { mantissa = omega arith; rounds = r; exponent = omega arith })
]
shrink-IsShrunk x0 x e (suc k) (Acc.intro _ smaller) r small fits total = elim (dec_le 16 x) [
  | no p ↦ rw (dif_neg _ p) (record { mantissa = omega arith; rounds = r; exponent = omega arith })
  | yes p ↦ rw (dif_pos _ le_prop p) (
      shrink-IsShrunk x0 (half_up x) (e + 1) k (smaller (half_up x) (half_smaller x p))
        (Rounds-half x0 x e p small r) (omega arith) (omega (arith, pow-suc 2 k)) (omega arith))
]

unpack-pack :
    (s : Scaled)
    → s.x < 16
    → s.e ≤ 30
    → (s.e ≡ 0) ⊎ (8 ≤ s.x)
    → fb2int (pack_byte s) ≡ s.x * 2 ^ s.e
unfolding fb2int
unpack-pack s m e unit = elim (dec_le 8 s.x) [
  | yes p ↦
      let byte = bit_or_disjoint 3 (s.e + 1) (s.x - 8) (omega arith) in
      ground (
        arith,
        byte,
        bit_and_mask 5 (((s.e + 1) * 2 ^ 3 + (s.x - 8)) / 2 ^ 3),
        bit_and_mask 3 ((s.e + 1) * 2 ^ 3 + (s.x - 8)),
      )
  | no p ↦ ground (arith, bit_and_mask 5 (s.x / 2 ^ 3))
]

mul_mono : (a b p : ℕ) → a ≤ b → a * p ≤ b * p
mul_mono a b p h = grind arith

fit_eighth : (x0 x e : ℕ) → Rounds x0 x e → 8 * (x * 2 ^ e) ≤ 9 * x0
fit_eighth x0 x e (up, close, eight, inl zero_e) = omega (arith, ap (λ (t : ℕ). 2 ^ t) zero_e)
fit_eighth x0 x e (up, close, eight, inr big) = elim (dec_le 9 x) [
  | yes p ↦ omega (arith, mul_mono 9 x (2 ^ e) p)
  | no p ↦ let is8 : x ≡ 8 = omega arith in omega (arith, eight is8, ap (λ (t : ℕ). t * 2 ^ e) is8)
]

exact_small : (x0 x e : ℕ) → x0 < 16 → Rounds x0 x e → x * 2 ^ e ≡ x0
exact_small x0 x e small (up, close, eight, inl zero_e) =
    omega (arith, ap (λ (t : ℕ). 2 ^ t) zero_e)
exact_small x0 x zero small (up, close, eight, inr big) = omega arith
exact_small x0 x (suc e) small (up, close, eight, inr big) =
    let twice = pow-suc 2 e in
    let least = one-le-pow e 2 in
    let floor = mul_mono 8 x (2 ^ suc e) big in
    let unit : 2 ^ suc e ≡ 2 = omega arith in
    let is8 : x ≡ 8 = omega (arith, ap (λ (t : ℕ). x * t) unit) in
    absurd (omega (arith, eight is8, ap (λ (t : ℕ). x * t) unit))

-- For a size up to 2 ^ 30 the byte gives back a size that is not smaller, at most an eighth larger,
-- and the same below 16; the `int` shift does not overflow.
pub fb2int-int2fb :
    (x : ℕ)
    → x ≤ 2 ^ 30
    → (x ≤ fb2int (int2fb x))
      × (8 * fb2int (int2fb x) ≤ 9 * x)
      × (fb2int (int2fb x) < 2 ^ 31)
      × ((fb2int (int2fb x) ≡ x) ⊎ (16 ≤ x))
unfolding int2fb
fb2int-int2fb x h =
    let s = shrink x 0 (lt_wf.apply x) in
    let i = shrink-IsShrunk x x 0 30 (lt_wf.apply x) (omega arith) h h refl in
    let back = unpack-pack s i.mantissa i.exponent i.rounds.3 in
    let eighth = fit_eighth x s.x s.e i.rounds in
    let small : (fb2int (pack_byte s) ≡ x) ⊎ (16 ≤ x) = elim (dec_le 16 x) [
      | yes p ↦ inr p
      | no p ↦ inl (back ∙ exact_small x s.x s.e (omega arith) i.rounds)
    ] in
    (omega (arith, back, i.rounds), omega (arith, back, eighth), omega (arith, back, eighth), small)
