-- ===== src/Patterns/Scan.antt =====
-- The loops of src/lstrlib.c over the subject: where `matchbalance` ends, and how far the first loop of
-- `max_expand` gets.
use lunacy.Base.{
  ℕ, suc, ◌+◌, ◌-◌, ◌≤◌, ◌<◌, ◌≡◌, true, [], ◌∷◌, Option, none, some, if_both, ◌==◌, ltb, ltb→lt,
  and_parts, length, get_or, drop, length-drop, arith,
}
use lunacy.Patterns.{Bytes, Ctype, MatchState, Outcome}
use lunacy.Patterns.Class.{singlematch}
use lunacy.Patterns.Match.{balance_loop, matchbalance, single_at, count_matches}
use lunacy.Patterns.Outcomes.{Captured, Good, Captured-later, Good-earlier}

-- The end that is found, if any, is behind `lo` and at most at `hi`.
abbrev pub Between : ℕ → ℕ → Option ℕ → Type 0
Between lo hi none = Unit
Between lo hi (some j) = (lo < j) × (j ≤ hi)

Between-wider :
    (lo lo1 hi hi1 : ℕ) (o : Option ℕ) → lo1 ≤ lo → hi ≤ hi1 → Between lo hi o → Between lo1 hi1 o
Between-wider lo lo1 hi hi1 none le ge h = tt
Between-wider lo lo1 hi hi1 (some j) le ge (after, before) = (omega arith, omega arith)

Between-behind : (i n : ℕ) (o : Option ℕ) → Between (suc i) (suc i + (n - suc i)) o → Between i n o
Between-behind i n none h = tt
Between-behind i n (some j) (after, before) = (omega arith, omega arith)

module _ (ctype : Ctype) (s : Bytes) (rest : ℕ → Bytes → MatchState → Outcome) where
  balance_loop-Between :
      (b e cont i : ℕ) (text : Bytes)
      → Between i (i + length text) (balance_loop ctype s rest b e cont i text)
  unfolding balance_loop
  balance_loop-Between b e cont i [] = tt
  balance_loop-Between b e cont i (c ∷ text) =
      let P = Between i (i + suc (length text)) in
      let wider : (cont1 : ℕ) → P (balance_loop ctype s rest b e cont1 (suc i) text) = λ cont1.
        Between-wider (suc i) i (suc i + length text) (i + suc (length text)) _ (omega arith)
          (omega arith) (balance_loop-Between b e cont1 (suc i) text) in
      if_both P (c == e) (if_both P (cont == 1) (omega arith, omega arith) (wider (cont - 1)))
        (if_both P (c == b) (wider (suc cont)) (wider cont))

  pub matchbalance-Between : (b e i : ℕ) → Between i (length s) (matchbalance ctype s rest b e i)
  unfolding matchbalance
  matchbalance-Between b e i =
      let loop = balance_loop-Between b e 1 (suc i) (drop (suc i) s) in
      if_both (Between i (length s)) (get_or s i 0 == b)
        (Between-behind i (length s) _ (rw (length-drop (suc i) s) at loop)) tt

  single_at-less : (i : ℕ) (text : Bytes) → single_at ctype s rest i text ≡ true → i < length s
  single_at-less i text h =
      ltb→lt i (length s) (and_parts (ltb i (length s)) (singlematch ctype (get_or s i 0) text) h).0

  -- What is good after one more byte is good here.
  pub one_more :
      (i : ℕ) (text : Bytes) (st : MatchState) (o : Outcome)
      → single_at ctype s rest i text ≡ true
      → Captured i st
      → (suc i ≤ length s → Captured (suc i) st → Good (length s) (suc i) st o)
      → Good (length s) i st o
  one_more i text st o h caps run =
      Good-earlier (length s) i (suc i) st o (omega arith)
        (run (single_at-less i text h) (Captured-later i (suc i) st (omega arith) caps))

  pub count_matches-length :
      (text more : Bytes) → count_matches ctype s rest text more ≤ length more
  unfolding count_matches
  count_matches-length text [] = omega arith
  count_matches-length text (c ∷ more) =
      let ih = count_matches-length text more in
      if_both (λ n. n ≤ suc (length more)) (singlematch ctype c text) (omega arith) (omega arith)
