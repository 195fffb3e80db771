-- ===== src/Tables.antt =====
-- src/ltable.c: how a table chooses the size of its array part, and where the array part ends.
pub mod Sizes
pub mod Border
pub mod Hash
pub mod Access
pub mod Elements
pub mod Entries
pub mod Reinsert
pub mod Fresh
pub mod Resize
pub mod Rehash
pub mod Slices
pub mod Counts
pub mod Set
pub mod Keys
pub mod Next
pub mod Scans
pub mod Traversal
use lunacy.Base.{
  ℕ, zero, suc, ◌+◌, ◌-◌, ◌*◌, ◌/◌, Bool, true, false, not, length, List, [], ◌∷◌, Option, none,
  some, ltb, leb, ◌==◌, ◌&&◌, if◌then◌else◌,
}

-- The loop of `computesizes` from slice `i` on, with `twotoi`, `a`, `na` and `n`. It ends at the end
-- of `nums` at the latest, and gives `n` and `na`.
unfoldable pub computesizes_loop : ℕ → List ℕ → (twotoi a na n : ℕ) → ℕ × ℕ
computesizes_loop narray [] twotoi a na n = (n, na)
computesizes_loop narray (c ∷ nums) twotoi a na n =
    let a' = if ltb 0 c then a + c else a in
    let more = ltb 0 c && ltb (twotoi / 2) a' in
    let n' = if more then twotoi else n in
    let na' = if more then a' else na in
    let rest = computesizes_loop narray nums (twotoi * 2) a' na' n' in
    if ltb (twotoi / 2) narray then (if a' == narray then (n', na') else rest) else (n, na)

-- The new `*narray`, and the result.
unfoldable pub computesizes : List ℕ → ℕ → ℕ × ℕ
computesizes nums narray = computesizes_loop narray nums 1 0 0 0

-- `!ttisnil(&t->array[k - 1])`: key `k` of the array part; there is none at 0 or past the end.
abbrev pub is_some : {V : Type 0} → Option V → Bool
is_some none = false
is_some (some v) = true

abbrev pub element : {V : Type 0} → List (Option V) → ℕ → Option V
element [] k = none
element (v ∷ array) zero = none
element (v ∷ array) (suc zero) = v
element (v ∷ array) (suc (suc k)) = element array (suc k)

-- The binary search of `luaH_getn` between `i` and `j`. The distance falls in every round.
unfoldable pub bisect : {V : Type 0} → List (Option V) → (rounds i j : ℕ) → ℕ
bisect array zero i j = i
bisect array (suc rounds) i j =
    let m = (i + j) / 2 in
    let present = is_some (element array m) in
    let rest = bisect array rounds (if present then m else i) (if present then j else m) in
    if ltb 1 (j - i) then rest else i

-- `luaH_getn` of a table whose hash part is empty.
unfoldable pub getn : {V : Type 0} → List (Option V) → ℕ
getn array =
    let j = length array in
    if ltb 0 j && not (is_some (element array j)) then bisect array j 0 j else j
