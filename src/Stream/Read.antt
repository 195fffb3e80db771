-- ===== src/Stream/Read.antt =====
-- Reading (src/lzio.c) against the bytes of the stream, however the reader cuts its input.
use mathlib.Core.Logic.{◌⊎◌, inl, inr}
use lunacy.Base.{
  ℕ, zero, suc, ◌+◌, ◌-◌, ◌≤◌, ◌<◌, ◌≡◌, refl, ap, ◌∙◌, arith, List, [], ◌∷◌, ◌++◌, none, some, leb,
  if◌then◌else◌, length, take, drop, length-append, length-drop,
}
use lunacy.Stream.{Zio, fill, getc, lookahead, read, read_rounds, prepend, Taken}

-- What the reader delivers before its first end of stream.
abbrev pub until_end : List (List ℕ) → List ℕ
until_end [] = []
until_end ([] ∷ bs) = []
until_end ((c ∷ b) ∷ bs) = (c ∷ b) ++ until_end bs

-- The bytes that are still to come.
abbrev pub content : Zio → List ℕ
content z = z.p ++ until_end z.reader

take-append_le : (n : ℕ) (b s : List ℕ) → n ≤ length b → take n (b ++ s) ≡ take n b
take-append_le zero b s h = refl
take-append_le (suc n) [] s h = absurd (omega arith)
take-append_le (suc n) (c ∷ b) s h = ap (λ (l : List ℕ). c ∷ l) (take-append_le n b s (omega arith))

drop-append_le : (n : ℕ) (b s : List ℕ) → n ≤ length b → drop n (b ++ s) ≡ drop n b ++ s
drop-append_le zero b s h = refl
drop-append_le (suc n) [] s h = absurd (omega arith)
drop-append_le (suc n) (c ∷ b) s h = drop-append_le n b s (omega arith)

take_more : (m k n : ℕ) (s : List ℕ) → m + k ≡ n → take m s ++ take k (drop m s) ≡ take n s
take_more zero k n s e = let e' : k ≡ n = omega arith in rw e'
take_more (suc m) k zero s e = absurd (omega arith)
take_more (suc m) zero (suc n) [] e = refl
take_more (suc m) (suc k) (suc n) [] e = refl
take_more (suc m) k (suc n) (c ∷ s) e = ap (λ (l : List ℕ). c ∷ l) (take_more m k n s (omega arith))

drop_more : (m k n : ℕ) (s : List ℕ) → m + k ≡ n → drop k (drop m s) ≡ drop n s
drop_more zero k n s e = let e' : k ≡ n = omega arith in rw e'
drop_more (suc m) k zero s e = absurd (omega arith)
drop_more (suc m) zero (suc n) [] e = refl
drop_more (suc m) (suc k) (suc n) [] e = refl
drop_more (suc m) k (suc n) (c ∷ s) e = drop_more m k n s (omega arith)

-- What a look ahead finds.
pub record Seen (z : Zio) (c : ℕ) : Type 0 where
  pub byte : (lookahead z).0 ≡ some c
  pub same : content (lookahead z).1 ≡ content z
  pub ready : 0 < length (lookahead z).1.p

look : (z : Zio) → (((lookahead z).0 ≡ none) × (content z ≡ [])) ⊎ ((c : ℕ) × Seen z c)
unfolding lookahead fill
look z = go z.p z.reader
  where
    go :
        (b : List ℕ) (r : List (List ℕ))
        → let z : Zio = record { p = b; reader = r } in
          (((lookahead z).0 ≡ none) × (content z ≡ [])) ⊎ ((c : ℕ) × Seen z c)
    go (c ∷ b) r = inr (c, record { byte = refl; same = refl; ready = omega arith })
    go [] [] = inl (refl, refl)
    go [] ([] ∷ bs) = inl (refl, refl)
    go [] ((c ∷ b) ∷ bs) = inr (c, record { byte = refl; same = refl; ready = omega arith })

-- A block of `n` bytes was asked of a stream that holds `s`.
pub record IsRead (n : ℕ) (s : List ℕ) (t : Taken) : Type 0 where
  pub bytes : t.bytes ≡ take n s
  pub missing : t.missing ≡ n - length s
  pub rest : ((n ≤ length s) × (content t.rest ≡ drop n s)) ⊎ (length s < n)

read_end :
    (fuel n : ℕ) (z : Zio)
    → (lookahead z).0 ≡ none
    → read_rounds (suc fuel) (suc n) z
      ≡ record { bytes = []; missing = suc n; rest = (lookahead z).1 }
unfolding read_rounds
read_end fuel n z e = rw (e, read_rounds)

abbrev round_size : ℕ → Zio → ℕ
round_size n z = if leb n (length z.p) then n else length z.p

abbrev after_round : ℕ → Zio → Zio
after_round n z = record z { p = drop (round_size n z) z.p }

read_round :
    (fuel n c : ℕ) (z : Zio)
    → (lookahead z).0 ≡ some c
    → let z' = (lookahead z).1 in
      read_rounds (suc fuel) (suc n) z
      ≡ prepend
          (take (round_size (suc n) z') z'.p)
          (read_rounds fuel (suc n - round_size (suc n) z') (after_round (suc n) z'))
unfolding read_rounds
read_round fuel n c z e = rw (e, read_rounds)

-- One round, for a stream with unread bytes `b` before `s`.
round-IsRead :
    (m n : ℕ) (b s : List ℕ) (t : Taken)
    → m ≤ n
    → m ≤ length b
    → IsRead (n - m) (drop m b ++ s) t
    → IsRead n (b ++ s) (prepend (take m b) t)
unfolding prepend
round-IsRead m n b s t h k r =
    let prefix = take-append_le m b s k in
    let suffix = drop-append_le m b s k in
    let total : m + (n - m) ≡ n = omega arith in
    record {
      bytes = rw (r.bytes, ← prefix, ← suffix) (take_more m (n - m) n (b ++ s) total);
      missing =
          omega (arith, r.missing, length-append (drop m b) s, length-append b s, length-drop m b);
      rest = elim r.rest [
        | inl (fits, after) ↦ inl (
          omega (arith, length-append (drop m b) s, length-append b s, length-drop m b),
          after ∙ rw (← suffix) (drop_more m (n - m) n (b ++ s) total),
        )
        | inr short ↦
            inr (omega (arith, length-append (drop m b) s, length-append b s, length-drop m b))
      ];
    }

round_size_bounds :
    (n : ℕ) (z : Zio)
    → 0 < n
    → 0 < length z.p
    → (0 < round_size n z) × (round_size n z ≤ n) × (round_size n z ≤ length z.p)
round_size_bounds n z h k = ground arith

read_rounds-IsRead : (fuel n : ℕ) (z : Zio) → n ≤ fuel → IsRead n (content z) (read_rounds fuel n z)
read_rounds-IsRead fuel zero z h =
    unfold read_rounds in
    record { bytes = refl; missing = omega arith; rest = inl (omega arith, refl) }
read_rounds-IsRead zero (suc n) z h = absurd (omega arith)
read_rounds-IsRead (suc fuel) (suc n) z h = elim (look z) [
  | inl (eoz, empty) ↦
      rw (read_end fuel n z eoz, empty)
        (record { bytes = refl; missing = omega arith; rest = inr (omega arith) })
  | inr (c, seen) ↦
      let z' = (lookahead z).1 in
      let m = round_size (suc n) z' in
      let small = round_size_bounds (suc n) z' (omega arith) seen.ready in
      let ih = read_rounds-IsRead fuel (suc n - m) (after_round (suc n) z') (omega arith) in
      rw (read_round fuel n c z seen.byte, ← seen.same)
        (round-IsRead m (suc n) z'.p (until_end z'.reader) _ small.1 small.2 ih)
]

-- Reading `n` bytes delivers the first `n` bytes of what the reader has still to give, however it is
-- cut into blocks, and returns how many of the `n` were missing; if none was, the bytes after them
-- stay to be read.
pub read-IsRead : (z : Zio) (n : ℕ) → IsRead n (content z) (read z n)
unfolding read
read-IsRead z n = read_rounds-IsRead n n z (omega arith)

-- Looking ahead finds the byte that the next `getc` returns, and does not take it.
pub getc-lookahead :
    (z : Zio) (c : ℕ)
    → (lookahead z).0 ≡ some c
    → ((getc z).0 ≡ some c) × (getc (lookahead z).1 ≡ getc z)
unfolding getc lookahead fill
getc-lookahead z c h = go z.p z.reader h
  where
    go :
        (b : List ℕ) (r : List (List ℕ))
        → let z : Zio = record { p = b; reader = r } in
          (lookahead z).0 ≡ some c → ((getc z).0 ≡ some c) × (getc (lookahead z).1 ≡ getc z)
    go (d ∷ b) r e = (e, refl)
    go [] [] e = cc
    go [] ([] ∷ bs) e = cc
    go [] ((d ∷ b) ∷ bs) e = (e, refl)

-- The bytes after a block that was all there.
pub content-rest :
    (z : Zio) (n : ℕ) → n ≤ length (content z) → content (read z n).rest ≡ drop n (content z)
content-rest z n h = elim (read-IsRead z n).rest [
  | inl (fits, after) ↦ after
  | inr short ↦ absurd (omega arith)
]
