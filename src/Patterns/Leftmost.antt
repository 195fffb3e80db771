-- ===== src/Patterns/Leftmost.antt =====
-- The loop of `str_find_aux` (src/lstrlib.c) over the positions of the subject.
use lunacy.Base.{
  ℕ, zero, suc, ◌+◌, ◌≤◌, ◌<◌, ◌≡◌, refl, sym, Bool, true, false, ◌⊎◌, inl, inr, if◌then◌else◌,
  arith,
}
use mathlib.Core.Path.{subst}
use lunacy.Patterns.{Bytes, Ctype, Outcome, matched, failed, raised}
use lunacy.Patterns.Find.{Search, found, not_found, broken, match_at, search_on, search}

abbrev pub Fails : Outcome → Type 0
Fails (failed st) = Unit
Fails _ = ⊥

module _ (ctype : Ctype) (s p : Bytes) where
  abbrev pub NoneBefore : ℕ → ℕ → Type 0
  NoneBefore lo k = (j : ℕ) → lo ≤ j → j < k → Fails (match_at ctype s p j)

  -- The search ends at the first position from `lo` to `hi` where `match` does not fail.
  abbrev pub Leftmost : ℕ → ℕ → Search → Type 0
  Leftmost lo hi not_found = NoneBefore lo (suc hi)
  Leftmost lo hi (found k e st) =
      (lo ≤ k) × (k ≤ hi) × (match_at ctype s p k ≡ matched e st) × NoneBefore lo k
  Leftmost lo hi (broken err) =
      (k : ℕ) × (lo ≤ k) × (k ≤ hi) × (match_at ctype s p k ≡ raised err) × NoneBefore lo k

  NoneBefore-earlier :
      (lo k : ℕ) → Fails (match_at ctype s p lo) → NoneBefore (suc lo) k → NoneBefore lo k
  NoneBefore-earlier lo k here later j from to = elim (split lo j from) [
    | inl same ↦ subst (λ i. Fails (match_at ctype s p i)) same here
    | inr more ↦ later j more to
  ]
    where
      split : (i j : ℕ) → i ≤ j → (i ≡ j) ⊎ (suc i ≤ j)
      split i j h = ground arith

  Leftmost-earlier :
      (lo hi : ℕ) (next : Search)
      → Fails (match_at ctype s p lo)
      → Leftmost (suc lo) hi next
      → Leftmost lo hi next
  Leftmost-earlier lo hi not_found here h = NoneBefore-earlier lo (suc hi) here h
  Leftmost-earlier lo hi (found k e st) here (from, to, eq, none) =
      (omega arith, to, eq, NoneBefore-earlier lo k here none)
  Leftmost-earlier lo hi (broken err) here (k, from, to, eq, none) =
      (k, omega arith, to, eq, NoneBefore-earlier lo k here none)

  NoneBefore-nil : (lo k : ℕ) → k ≤ lo → NoneBefore lo k
  NoneBefore-nil lo k le j from to = absurd (omega arith)

  Leftmost-search_on :
      (lo hi : ℕ) (next : Search) (o : Outcome)
      → lo ≤ hi
      → match_at ctype s p lo ≡ o
      → Leftmost (suc lo) hi next
      → Leftmost lo hi (search_on ctype s lo next o)
  Leftmost-search_on lo hi next (matched e st) le eq h =
      (omega arith, le, eq, NoneBefore-nil lo lo (omega arith))
  Leftmost-search_on lo hi next (raised e) le eq h =
      (lo, omega arith, le, eq, NoneBefore-nil lo lo (omega arith))
  Leftmost-search_on lo hi next (failed st) le eq h =
      Leftmost-earlier lo hi next (subst Fails (sym eq) tt) h

  -- A search, from `i` on, ends at the first position where `match` does not fail, with what `match`
  -- gives there, or without a match if it fails at all of them: `i` and the `left` positions behind
  -- it, or `i` alone for an anchored pattern.
  pub search-Leftmost :
      (anchor : Bool) (left i : ℕ)
      → Leftmost i (if anchor then i else i + left) (search ctype s anchor p left i)
  unfolding search
  search-Leftmost true zero i =
      Leftmost-search_on i i not_found _ (omega arith) refl
        (NoneBefore-nil (suc i) (suc i) (omega arith))
  search-Leftmost false zero i =
      Leftmost-search_on i (i + 0) not_found _ (omega arith) refl
        (NoneBefore-nil (suc i) (suc (i + 0)) (omega arith))
  search-Leftmost true (suc left) i =
      Leftmost-search_on i i not_found _ (omega arith) refl
        (NoneBefore-nil (suc i) (suc i) (omega arith))
  search-Leftmost false (suc left) i =
      let same : suc i + left ≡ i + suc left = omega arith in
      let next = search-Leftmost false left (suc i) in
      Leftmost-search_on i (i + suc left) _ _ (omega arith) refl
        (subst (λ hi. Leftmost (suc i) hi (search ctype s false p left (suc i))) same next)
