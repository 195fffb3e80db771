-- ===== src/Patterns/Ends.antt =====
-- string.find, string.match and the iterator of string.gmatch (src/lstrlib.c): how a call ends.
use mathlib.Core.Path.{subst}
use lunacy.Base.{
  ℕ, zero, suc, ◌+◌, ◌-◌, ◌≤◌, ◌<◌, ◌≡◌, ◌≢◌, Bool, true, false, not, ◌&&◌, ◌||◌, List, [], Option,
  none, some, if_both, if_cases, ltb, leb, ◌==◌, if◌then◌else◌, length, get_or, arith,
}
use lunacy.Base.Int.{ℤ}
use lunacy.Patterns.{
  Bytes, Ctype, out_of_rounds, CapLen, unfinished, position, closed, MatchState, matched, Pushed,
  Result, ok, error, and_then,
}
use lunacy.Patterns.Shorter.{Known}
use lunacy.Patterns.Match.{no_capture}
use lunacy.Patterns.Runs.{match-Good}
use lunacy.Patterns.Outcomes.{Good}
use lunacy.Patterns.Push.{push_capture, push_onecapture, push_loop, push_captures}
use lunacy.Patterns.Find.{
  Search, found, not_found, broken, is_anchored, unanchored, match_at, search, has_specials,
  search_values, first_position, str_find_aux, gmatch_aux,
}
use lunacy.Patterns.Leftmost.{Leftmost, search-Leftmost}

-- A result, or an error of the code.
abbrev pub Ends : {A : Type 0} → Result A → Type 0
Ends (ok a) = Unit
Ends (error e) = Known e

pub Ends-and_then :
    {A B : Type 0} (f : A → Result B) (r : Result A)
    → ((a : A) → Ends (f a))
    → Ends r
    → Ends (and_then f r)
Ends-and_then f (ok a) h hr = h a
Ends-and_then f (error e) h hr = hr

module _ (s : Bytes) where
  push_capture-Ends :
      (init : ℕ) (l : CapLen) → Ends (push_capture s (record { init = init; len = l }))
  unfolding push_capture
  push_capture-Ends init unfinished = tt
  push_capture-Ends init position = tt
  push_capture-Ends init (closed n) = tt

  pub push_onecapture-Ends : (st : MatchState) (k i e : ℕ) → Ends (push_onecapture s st k i e)
  unfolding push_onecapture
  push_onecapture-Ends st k i e =
      let c = get_or st k no_capture in
      if_both Ends (leb (length st) k) (if_both Ends (k == 0) tt tt)
        (push_capture-Ends c.init c.len)

  push_loop-Ends : (st : MatchState) (i e k count : ℕ) → Ends (push_loop s st i e k count)
  unfolding push_loop
  push_loop-Ends st i e k zero = tt
  push_loop-Ends st i e k (suc count) =
      Ends-and_then _ _ (λ v. Ends-and_then _ _ (λ vs. tt) (push_loop-Ends st i e (suc k) count))
        (push_onecapture-Ends st k i e)

  pub push_captures-Ends :
      (whole : Bool) (st : MatchState) (i e : ℕ) → Ends (push_captures s whole st i e)
  unfolding push_captures
  push_captures-Ends whole st i e = push_loop-Ends st i e 0 _

module _ (ctype : Ctype) (s : Bytes) where
  pub match_at-Good :
      (p : Bytes) (i : ℕ) → i ≤ length s → Good (length s) i [] (match_at ctype s p i)
  match_at-Good p i le = match-Good ctype s (suc (length p)) i p [] (omega arith) le tt

  -- A search ends in the subject, or with an error of the code.
  abbrev Within : ℕ → Search → Type 0
  Within i not_found = Unit
  Within i (found k e st) = (i ≤ k) × (k ≤ e) × (e ≤ length s)
  Within i (broken e) = Known e

  Leftmost-Within :
      (p : Bytes) (i hi : ℕ) (r : Search) → hi ≤ length s → Leftmost ctype s p i hi r → Within i r
  Leftmost-Within p i hi not_found le h = tt
  Leftmost-Within p i hi (found k e st) le (from, to, eq, before) =
      let good : Good (length s) k [] (matched e st) =
        subst (λ o. Good (length s) k [] o) eq (match_at-Good p k (omega arith)) in
      (from, good.0, good.1)
  Leftmost-Within p i hi (broken e) le (k, from, to, eq, before) =
      subst (λ o. Good (length s) k [] o) eq (match_at-Good p k (omega arith))

  search-Within :
      (anchor : Bool) (p : Bytes) (left i : ℕ)
      → i + left ≤ length s
      → Within i (search ctype s anchor p left i)
  search-Within true p left i le =
      Leftmost-Within p i i _ (omega arith) (search-Leftmost ctype s p true left i)
  search-Within false p left i le =
      Leftmost-Within p i (i + left) _ le (search-Leftmost ctype s p false left i)

  search_values-Ends :
      (find : Bool) (i : ℕ) (r : Search) → Within i r → Ends (search_values ctype s find r)
  unfolding search_values
  search_values-Ends find i not_found h = tt
  search_values-Ends find i (broken e) h = h
  search_values-Ends find i (found k e st) h =
      if_both Ends find (Ends-and_then _ _ (λ vs. tt) (push_captures-Ends s false st 0 0))
        (push_captures-Ends s true st k e)

  first_position-le : (init : ℤ) → first_position ctype s init ≤ length s
  unfolding first_position
  first_position-le init =
      if_cases (λ i. i ≤ length s) (ltb (length s) _) (λ h. omega arith) (λ h. ground arith)

  str_find_aux-Ends :
      (find : Bool) (p : Bytes) (init : ℤ) (plain : Bool)
      → Ends (str_find_aux ctype s find p init plain)
  unfolding str_find_aux
  str_find_aux-Ends find p init plain =
      let i = first_position ctype s init in
      let le = first_position-le init in
      if_both Ends (find && (plain || not (has_specials p))) tt (
        search_values-Ends find i _
          (search-Within (is_anchored p) (unanchored p) (length s - i) i (omega arith)))

  -- The next start is behind this one, and at most one position behind the end of the subject.
  abbrev Onward : ℕ → Result (Option (ℕ × List Pushed)) → Type 0
  Onward start (ok none) = Unit
  Onward start (ok (some (next, values))) = (start < next) × (next ≤ suc (length s))
  Onward start (error e) = Known e

  found-Onward :
      (start next : ℕ) (r : Result (List Pushed))
      → start < next
      → next ≤ suc (length s)
      → Ends r
      → Onward start (and_then (λ vs. ok (some (next, vs))) r)
  found-Onward start next (ok vs) after le h = (after, le)
  found-Onward start next (error e) after le h = h

  gmatch_aux-Onward : (p : Bytes) (start : ℕ) → Onward start (gmatch_aux ctype s p start)
  unfolding gmatch_aux
  gmatch_aux-Onward p start =
      if_cases (Onward start) (ltb (length s) start) (λ h. tt)
        (λ h.
          go (search ctype s false p (length s - start) start)
            (search-Within false p (length s - start) start (ground arith)))
    where
      go :
          (r : Search)
          → Within start r
          → Onward start (elim r [
            | not_found ↦ ok none
            | broken e ↦ error e
            | found i e st ↦
                and_then
                  (λ vs. ok (some ((if e == i then suc e else e), vs)))
                  (push_captures s true st i e)
          ])
      go not_found h = tt
      go (broken e) h = h
      go (found i e st) (from, to, le) =
          let bounds : (start < (if e == i then suc e else e))
              × ((if e == i then suc e else e) ≤ suc (length s)) =
            if_cases (λ n. (start < n) × (n ≤ suc (length s))) (e == i)
              (λ same. (omega arith, omega arith)) (λ other. (ground arith, omega arith)) in
          found-Onward start _ _ bounds.0 bounds.1 (push_captures-Ends s true st i e)

-- string.find and string.match end on every subject and pattern, with values or with an error of the
-- library: the rounds of `match` never run out.
pub str_find_aux-ends :
    (ctype : Ctype) (s : Bytes) (find : Bool) (p : Bytes) (init : ℤ) (plain : Bool)
    → str_find_aux ctype s find p init plain ≢ error out_of_rounds
str_find_aux-ends ctype s find p init plain h =
    subst Ends h (str_find_aux-Ends ctype s find p init plain)

-- The iterator of string.gmatch goes on: the next call starts behind the start of this one, and not
-- further than one position behind the end of the subject.
pub gmatch_aux-next :
    (ctype : Ctype) (s p : Bytes) (start next : ℕ) (values : List Pushed)
    → gmatch_aux ctype s p start ≡ ok (some (next, values))
    → (start < next) × (next ≤ suc (length s))
gmatch_aux-next ctype s p start next values h =
    subst (Onward ctype s start) h (gmatch_aux-Onward ctype s p start)
