-- ===== src/Base/Word.antt =====
-- Machine words as numbers: `uint32_t` and its shifts, complement, casts and rotations.
use Prim.Native.Nat.{ℕ, ◌+◌, ◌-◌, ◌*◌, ◌/◌, ◌%◌, ◌^◌, bit_or}

abbrev pub u8 : ℕ → ℕ
u8 n = n % 2 ^ 8

abbrev pub u32 : ℕ → ℕ
u32 n = n % 2 ^ 32

-- `x << k` and `x >> k` on `uint32_t`, for k < 32.
infixl 75 ◌<<<◌ ◌>>>◌
abbrev pub ◌<<<◌ : ℕ → ℕ → ℕ
x <<< k = (x * 2 ^ k) % 2 ^ 32

abbrev pub ◌>>>◌ : ℕ → ℕ → ℕ
x >>> k = x / 2 ^ k

-- `~x` on `uint32_t`.
abbrev pub not32 : ℕ → ℕ
not32 x = 2 ^ 32 - 1 - x

abbrev pub add32 : ℕ → ℕ → ℕ
add32 a b = (a + b) % 2 ^ 32

-- `(x << k) | (x >> (32 - k))`.
abbrev pub rotl32 : ℕ → ℕ → ℕ
rotl32 x k = bit_or (x <<< k) (x >>> (32 - k))
