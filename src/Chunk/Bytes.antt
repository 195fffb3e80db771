-- ===== src/Chunk/Bytes.antt =====
-- Integers to bytes and back (src/ldump.c, src/lundump.c): single ones and arrays.
use native.Mathlib.Nat.{pow-suc}
use lunacy.Base.{
  ℕ, zero, suc, ◌*◌, ◌/◌, ◌^◌, ◌<◌, ◌≡◌, refl, ap, arith, List, [], ◌∷◌, length, All, length-append,
  take-append, drop-append,
}
use lunacy.Chunk.{le_bytes, from_le, vector_bytes, vector_from}

pub length-le_bytes : (w x : ℕ) → length (le_bytes w x) ≡ w
unfolding le_bytes
length-le_bytes zero x = refl
length-le_bytes (suc w) x = ap suc (length-le_bytes w (x / 256))

-- An integer that fits its bytes is read back from them.
pub from_le-le_bytes : (w x : ℕ) → x < 256 ^ w → from_le (le_bytes w x) ≡ x
unfolding le_bytes from_le
from_le-le_bytes zero x h = omega arith
from_le-le_bytes (suc w) x h =
    omega (arith, from_le-le_bytes w (x / 256) (omega (arith, pow-suc 256 w)))

pub length-vector_bytes : (w : ℕ) (xs : List ℕ) → length (vector_bytes w xs) ≡ length xs * w
unfolding vector_bytes
length-vector_bytes w [] = omega arith
length-vector_bytes w (x ∷ xs) = omega (
  arith,
  length-append (le_bytes w x) (vector_bytes w xs),
  length-le_bytes w x,
  length-vector_bytes w xs,
)

pub vector_from-vector_bytes :
    (w : ℕ) (xs : List ℕ)
    → All (λ x. x < 256 ^ w) xs
    → vector_from w (length xs) (vector_bytes w xs) ≡ xs
unfolding vector_from vector_bytes
vector_from-vector_bytes w [] h = refl
vector_from-vector_bytes w (x ∷ xs) (fits, rest) =
    let size = length-le_bytes w x in
    rw (
      take-append w (le_bytes w x) (vector_bytes w xs) size,
      drop-append w (le_bytes w x) (vector_bytes w xs) size,
      from_le-le_bytes w x fits,
      vector_from-vector_bytes w xs rest,
    )
