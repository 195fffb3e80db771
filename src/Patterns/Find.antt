-- ===== src/Patterns/Find.antt =====
-- string.find, string.match and string.gmatch (src/lstrlib.c). A position is a distance from the
-- start of the subject.
use lunacy.Base.{
  ℕ, zero, suc, ◌+◌, ◌-◌, Bool, true, false, not, ◌&&◌, ◌||◌, List, [], ◌∷◌, Option, none, some,
  ltb, ◌==◌, if◌then◌else◌, length, drop,
}
use lunacy.Base.Int.{ℤ, pos, negsuc}
use lunacy.Patterns.{
  Bytes, Ctype, PatternError, MatchState, Outcome, matched, failed, raised, Pushed, pushed_nil,
  pushed_number, Result, ok, error, and_then,
}
use lunacy.Patterns.Class.{char_at}
use lunacy.Patterns.Match.{match}
use lunacy.Patterns.Plain.{lmemfind}
use lunacy.Patterns.Push.{push_captures}

-- `posrelat`: a position from the end, -(n + 1), becomes -(n + 1) + len + 1, and 0 if that is negative.
unfoldable pub posrelat : ℤ → ℕ → ℕ
posrelat (pos n) len = n
posrelat (negsuc n) len = len - n

-- SPECIALS
abbrev pub specials : Bytes
specials = b'^' ∷ b'$' ∷ b'*' ∷ b'+' ∷ b'?' ∷ b'.' ∷ b'(' ∷ b'[' ∷ b'%' ∷ b'-' ∷ []

abbrev pub is_in : ℕ → Bytes → Bool
is_in c [] = false
is_in c (a ∷ set) = c == a || is_in c set

-- `strpbrk(p, SPECIALS) != NULL`: up to the first 0.
unfoldable pub has_specials : Bytes → Bool
has_specials [] = false
has_specials (c ∷ p) = not (c == 0) && (is_in c specials || has_specials p)

-- Where a search ends: at a match, from a position to its end, without one, or with an error.
pub data Search : Type 0 where
  found : ℕ → ℕ → MatchState → Search
  not_found : Search
  broken : PatternError → Search

-- The pattern behind a `^`.
abbrev pub is_anchored : Bytes → Bool
is_anchored p = char_at p == b'^'

abbrev pub unanchored : Bytes → Bytes
unanchored [] = []
unanchored (a ∷ p) = if a == b'^' then p else a ∷ p

module _ (ctype : Ctype) (s : Bytes) where
  -- `match` from a position, without captures.
  abbrev pub match_at : Bytes → ℕ → Outcome
  match_at p i = match ctype s (suc (length p)) i p []

  abbrev pub search_on : ℕ → Search → Outcome → Search
  search_on i next (matched e st) = found i e st
  search_on i next (failed st) = next
  search_on i next (raised e) = broken e

  -- The loop over the positions, with `left` more behind `i`.
  unfoldable pub search : Bool → Bytes → ℕ → ℕ → Search
  search anchor p zero i = search_on i not_found (match_at p i)
  search anchor p (suc left) i =
      let further = search anchor p left (suc i) in
      search_on i (if anchor then not_found else further) (match_at p i)

  unfoldable pub plain_values : Bytes → ℕ → Option ℕ → List Pushed
  plain_values p init none = pushed_nil ∷ []
  plain_values p init (some k) =
      pushed_number (init + k + 1) ∷ pushed_number (init + k + length p) ∷ []

  unfoldable pub search_values : Bool → Search → Result (List Pushed)
  search_values find not_found = ok (pushed_nil ∷ [])
  search_values find (broken e) = error e
  search_values find (found i e st) =
      if find
      then and_then (λ vs. ok (pushed_number (i + 1) ∷ pushed_number e ∷ vs))
          (push_captures s false st 0 0)
      else push_captures s true st i e

  -- The third argument, as a distance from the start: `- 1` stops at 0, as `init` does.
  unfoldable pub first_position : ℤ → ℕ
  first_position init =
      let i = posrelat init (length s) - 1 in if ltb (length s) i then length s else i

  -- `str_find_aux`; `plain` is the fourth argument.
  unfoldable pub str_find_aux : Bool → Bytes → ℤ → Bool → Result (List Pushed)
  str_find_aux find p init plain =
      let i = first_position init in
      if find && (plain || not (has_specials p))
      then ok (plain_values p i (lmemfind (drop i s) p))
      else search_values find (search (is_anchored p) (unanchored p) (length s - i) i)

  -- The values of one call of the iterator, and the start of the next one.
  unfoldable pub gmatch_aux : Bytes → ℕ → Result (Option (ℕ × List Pushed))
  gmatch_aux p start =
      if ltb (length s) start then ok none else elim (search false p (length s - start) start) [
        | not_found ↦ ok none
        | broken e ↦ error e
        | found i e st ↦
            and_then (λ vs. ok (some ((if e == i then suc e else e), vs)))
              (push_captures s true st i e)
      ]
