-- ===== src/Text/Slices.antt =====
-- string.sub, string.byte and string.char (src/lstrlib.c) on the same part of a text.
use lunacy.Base.{
  ℕ, zero, suc, ◌+◌, ◌-◌, ◌%◌, ◌^◌, ◌≤◌, ◌<◌, ◌≡◌, refl, true, false, [], ◌∷◌, Option, none, some,
  if◌then◌else◌, length-take, length-drop, ltb, leb, lt→ltb, if_both, if_cases, Bool-cases, inl,
  inr, length, map, take, drop, All, arith,
}
use lunacy.Base.Int.{ℤ, pos, ◌+ℤ◌, ltb_ℤ}
use lunacy.Patterns.{Bytes}
use lunacy.Patterns.Find.{posrelat}
use lunacy.Text.{
  at_least_one, at_most, sub_slice, str_sub, to_int, check_int, max_cstack, check_stack, byte_slice,
  str_byte, str_char,
}

to_int-pos : (n : ℕ) → n < 2 ^ 31 → to_int n ≡ pos n
unfolding to_int
to_int-pos n h = let low : n % 2 ^ 32 ≡ n = omega arith in rw (low, lt→ltb n (2 ^ 31) h) refl

-- No part of a short text is too long.
count_fits :
    (posi pose : ℕ) → posi ≤ pose → ltb_ℤ (pos pose) (pos posi +ℤ pos (pose - posi + 1)) ≡ true
count_fits posi pose h = ground arith

-- What the stack has room for.
abbrev pub if_room : ℕ → Bytes → Option Bytes
if_room used t = if leb (used + length t) max_cstack then some t else none

length-sub_slice :
    (s : Bytes) (posi pose : ℕ)
    → 1 ≤ posi
    → posi ≤ pose
    → pose ≤ length s
    → length (take (pose - posi + 1) (drop (posi - 1) s)) ≡ pose - posi + 1
length-sub_slice s posi pose from le to =
    omega (arith, length-take (pose - posi + 1) (drop (posi - 1) s), length-drop (posi - 1) s)

room : (used n : ℕ) → check_stack used n ≡ leb (used + n) max_cstack
unfolding check_stack
room used n = ground arith

byte_slice-sub_slice :
    (used : ℕ) (s : Bytes) (posi pose : ℕ)
    → used ≤ max_cstack
    → length s < 2 ^ 31
    → pose ≤ length s
    → 1 ≤ posi
    → byte_slice used s posi pose ≡ if_room used (sub_slice s posi pose)
unfolding byte_slice sub_slice
byte_slice-sub_slice used s posi pose few small to from = elim (Bool-cases (ltb pose posi)) [
  | inl past ↦
      let out : leb posi pose ≡ false = ground arith in
      let fits : leb (used + 0) max_cstack ≡ true = ground arith in rw (past, out, fits) refl
  | inr inside ↦
      let le : posi ≤ pose = ground arith in
      let ordered : leb posi pose ≡ true = ground arith in
      let count = length-sub_slice s posi pose from le to in
      rw
        (
          inside,
          ordered,
          to_int-pos (pose - posi + 1) (omega arith),
          count_fits posi pose le,
          room used (pose - posi + 1),
          count,
        )
        refl
]

check_int-pos : (n : ℕ) → n < 2 ^ 31 → check_int (pos n) ≡ pos n
unfolding check_int
check_int-pos n small = to_int-pos n small

str_char-map : (t : Bytes) → All (λ c. c < 256) t → str_char (map pos t) ≡ some t
unfolding str_char
str_char-map [] h = refl
str_char-map (c ∷ t) (hc, h) =
    rw (check_int-pos c (omega arith), lt→ltb c 256 hc, str_char-map t h) refl

All-take : (n : ℕ) (t : Bytes) → All (λ c. c < 256) t → All (λ c. c < 256) (take n t)
All-take zero t h = tt
All-take (suc n) [] h = tt
All-take (suc n) (c ∷ t) (hc, h) = (hc, All-take n t h)

All-drop : (n : ℕ) (t : Bytes) → All (λ c. c < 256) t → All (λ c. c < 256) (drop n t)
All-drop zero t h = h
All-drop (suc n) [] h = tt
All-drop (suc n) (c ∷ t) (hc, h) = All-drop n t h

str_byte-str_sub :
    (used : ℕ) (s : Bytes) (i j : ℤ)
    → used ≤ max_cstack
    → length s < 2 ^ 31
    → str_byte used s i (some j) ≡ if_room used (str_sub s i j)
unfolding str_byte str_sub
str_byte-str_sub used s i j few small =
    let l = length s in
    byte_slice-sub_slice used s (at_least_one (posrelat i l)) (at_most l (posrelat j l)) few small
      (if_cases (λ e. e ≤ l) (ltb l (posrelat j l)) (λ h. omega arith) (λ h. ground arith))
      (if_cases (λ b. 1 ≤ b) (ltb (posrelat i l) 1) (λ h. omega arith) (λ h. ground arith))

sub_slice-All :
    (s : Bytes) (start end : ℕ) → All (λ c. c < 256) s → All (λ c. c < 256) (sub_slice s start end)
unfolding sub_slice
sub_slice-All s start end h =
    if_both (All (λ c. c < 256)) (leb start end)
      (All-take (end - start + 1) _ (All-drop (start - 1) s h)) tt

str_sub-All : (s : Bytes) (i j : ℤ) → All (λ c. c < 256) s → All (λ c. c < 256) (str_sub s i j)
unfolding str_sub
str_sub-All s i j h = sub_slice-All s _ _ h

-- For a text of fewer than 2 ^ 31 bytes and any two positions, from the start or from the end and
-- in the text or not, string.byte gives the bytes of string.sub if the stack of 8000 values has room
-- for them beside the arguments, and an error if not; string.char puts the bytes together again.
pub str_char-str_byte :
    (used : ℕ) (s : Bytes) (i j : ℤ)
    → used ≤ max_cstack
    → length s < 2 ^ 31
    → All (λ c. c < 256) s
    → (str_byte used s i (some j)
        ≡ (if leb (used + length (str_sub s i j)) max_cstack then some (str_sub s i j) else none))
      × (str_char (map pos (str_sub s i j)) ≡ some (str_sub s i j))
str_char-str_byte used s i j few small bytes =
    (str_byte-str_sub used s i j few small, str_char-map (str_sub s i j) (str_sub-All s i j bytes))
