-- ===== src/Patterns/Steps.antt =====
-- The functions that `match` calls (src/lstrlib.c), on outcomes: each goes on in the subject and
-- undoes what it did to the state.
use lunacy.Base.{
  ℕ, zero, suc, ◌+◌, ◌-◌, ◌≤◌, ◌<◌, ◌≡◌, refl, not, ◌&&◌, ◌||◌, [], ◌∷◌, ◌++◌, Option, none, some,
  if_cases, if_both, ◌==◌, leb, and_parts, same_bytes, if◌then◌else◌, length, get_or, set, take,
  drop, length-drop, arith,
}
use lunacy.Patterns.{
  Bytes, Ctype, invalid_pattern_capture, invalid_capture_index, CapLen, unfinished, position,
  closed, Capture, MatchState, max_captures, Outcome, failed, raised,
}
use lunacy.Patterns.Class.{matchbracketclass}
use lunacy.Patterns.Item.{
  Suffix, once, optional, max_repeat, max_repeat1, min_repeat, Item, pattern_end, open_capture,
  position_capture, close_capture, balance, frontier, reference, subject_end, single, malformed,
}
use lunacy.Patterns.Match.{
  on_failure, pop, no_capture, set_len, capture_to_close, check_capture, start_capture, end_capture,
  match_capture, matchbalance, single_at, count_matches, max_tries, max_expand, min_tries,
  min_expand, match_single, match_item,
}
use lunacy.Patterns.Shorter.{Shorter}
use lunacy.Patterns.Outcomes.{
  Inside, Captured, Good, Captured-later, Captured-append, Captured-set_len, pop-append,
  set_len-undo, capture_to_close-unfinished, Good-earlier, Good-retry, Good-undo,
}
use lunacy.Patterns.Scan.{Between, matchbalance-Between, one_more, count_matches-length}

module _ (ctype : Ctype) (s : Bytes) (rest : ℕ → Bytes → MatchState → Outcome) (n : ℕ)
    (rest_good : (j : ℕ) (p : Bytes) (st : MatchState)
      → length p < n
      → j ≤ length s
      → Captured j st
      → Good (length s) j st (rest j p st)) where
  start_capture-Good :
      (i : ℕ) (p : Bytes) (what : CapLen) (st : MatchState)
      → length p < n
      → i ≤ length s
      → Captured i st
      → Inside i (record { init = i; len = what })
      → Good (length s) i st (start_capture ctype s rest i p what st)
  unfolding start_capture
  start_capture-Good i p what st short le caps inside =
      let c : Capture = record { init = i; len = what } in
      if_both (Good (length s) i st) (leb max_captures (length st)) tt (
        Good-undo (length s) i st (st ++ c ∷ []) pop _ (pop-append st c)
          (rest_good i p (st ++ c ∷ []) short le (Captured-append i st c caps inside)))

  end_capture-Good :
      (i : ℕ) (p : Bytes) (st : MatchState)
      → length p < n
      → i ≤ length s
      → Captured i st
      → Good (length s) i st (end_capture ctype s rest i p st)
  unfolding end_capture
  end_capture-Good i p st short le caps = go (capture_to_close st (length st)) refl
    where
      go :
          (o : Option ℕ)
          → capture_to_close st (length st) ≡ o
          → Good (length s) i st (elim o [
            | none ↦ raised invalid_pattern_capture
            | some l ↦
                on_failure
                  (λ st'. failed (set_len st' l unfinished))
                  (rest i p (set_len st l (closed (i - (get_or st l no_capture).init))))
          ])
      go none eq = tt
      go (some l) eq =
          let close = closed (i - (get_or st l no_capture).init) in
          Good-undo (length s) i st (set_len st l close) (λ st'. set_len st' l unfinished) _
            (set_len-undo st l close (capture_to_close-unfinished st (length st) l eq))
            (rest_good i p (set_len st l close) short le (Captured-set_len i st l caps))

  capture_at-Good :
      (i : ℕ) (p : Bytes) (st : MatchState)
      → length p < n
      → i ≤ length s
      → Captured i st
      → (l : CapLen) (init : ℕ)
      → Good (length s) i st (elim l [
        | closed size ↦
            if leb size (length s - i)
              && same_bytes (take size (drop init s)) (take size (drop i s))
            then rest (i + size) p st
            else failed st
        | _ ↦ failed st
      ])
  capture_at-Good i p st short le caps unfinished init = refl
  capture_at-Good i p st short le caps position init = refl
  capture_at-Good i p st short le caps (closed size) init =
      if_cases (Good (length s) i st) (leb size (length s - i) && _)
        (λ h. ahead (ground (arith, and_parts (leb size (length s - i)) _ h))) (λ h. refl)
    where
      ahead : size ≤ length s - i → Good (length s) i st (rest (i + size) p st)
      ahead fits = Good-earlier (length s) i (i + size) st _ (omega arith) (
          rest_good (i + size) p st short (omega arith)
            (Captured-later i (i + size) st (omega arith) caps))

  match_capture-Good :
      (i d : ℕ) (p : Bytes) (st : MatchState)
      → length p < n
      → i ≤ length s
      → Captured i st
      → Good (length s) i st (match_capture ctype s rest i d p st)
  unfolding match_capture
  match_capture-Good i d p st short le caps = go (check_capture st d)
    where
      go :
          (o : Option ℕ)
          → Good (length s) i st (elim o [
            | none ↦ raised invalid_capture_index
            | some l ↦ elim (get_or st l no_capture).len [
              | closed size ↦
                  if leb size (length s - i)
                    && same_bytes
                        (take size (drop (get_or st l no_capture).init s))
                        (take size (drop i s))
                  then rest (i + size) p st
                  else failed st
              | _ ↦ failed st
            ]
          ])
      go none = tt
      go (some l) =
          let c = get_or st l no_capture in capture_at-Good i p st short le caps c.len c.init

  max_tries-Good :
      (i : ℕ) (p : Bytes) (st : MatchState)
      → length p < n
      → Captured i st
      → (count : ℕ) → i + count ≤ length s
      → Good (length s) i st (max_tries ctype s rest i p count st)
  unfolding max_tries
  max_tries-Good i p st short caps zero le = rest_good i p st short (omega arith) caps
  max_tries-Good i p st short caps (suc count) le =
      let longest =
        rest_good (i + suc count) p st short le
          (Captured-later i (i + suc count) st (omega arith) caps) in
      Good-retry (length s) i st _ _
        (Good-earlier (length s) i (i + suc count) st _ (omega arith) longest)
        (max_tries-Good i p st short caps count (omega arith))

  max_expand-Good :
      (i : ℕ) (text p : Bytes) (st : MatchState)
      → length p < n
      → i ≤ length s
      → Captured i st
      → Good (length s) i st (max_expand ctype s rest i text p st)
  unfolding max_expand
  max_expand-Good i text p st short le caps =
      let size = length-drop i s in
      let bound = count_matches-length ctype s rest text (drop i s) in
      max_tries-Good i p st short caps (count_matches ctype s rest text (drop i s)) (omega arith)

  min_tries-Good :
      (left i : ℕ) (text p : Bytes) (st : MatchState)
      → length p < n
      → i ≤ length s
      → Captured i st
      → Good (length s) i st (min_tries ctype s rest left i text p st)
  unfolding min_tries
  min_tries-Good zero i text p st short le caps = rest_good i p st short le caps
  min_tries-Good (suc left) i text p st short le caps =
      Good-retry (length s) i st _ _ (rest_good i p st short le caps) (
        if_cases (Good (length s) i st) (single_at ctype s rest i text)
          (λ h.
            one_more ctype s rest i text st _ h caps (min_tries-Good left (suc i) text p st short))
          (λ h. refl))

  min_expand-Good :
      (i : ℕ) (text p : Bytes) (st : MatchState)
      → length p < n
      → i ≤ length s
      → Captured i st
      → Good (length s) i st (min_expand ctype s rest i text p st)
  unfolding min_expand
  min_expand-Good i text p st short le caps =
      min_tries-Good (suc (length s - i)) i text p st short le caps

  match_single-Good :
      (i : ℕ) (text : Bytes) (suffix : Suffix) (p : Bytes) (st : MatchState)
      → length p < n
      → i ≤ length s
      → Captured i st
      → Good (length s) i st (match_single ctype s rest i text suffix p st)
  unfolding match_single
  match_single-Good i text once p st short le caps =
      if_cases (Good (length s) i st) (single_at ctype s rest i text)
        (λ h. one_more ctype s rest i text st _ h caps (rest_good (suc i) p st short)) (λ h. refl)
  match_single-Good i text optional p st short le caps =
      if_cases (Good (length s) i st) (single_at ctype s rest i text)
        (λ h.
          Good-retry (length s) i st _ _
            (one_more ctype s rest i text st _ h caps (rest_good (suc i) p st short))
            (rest_good i p st short le caps))
        (λ h. rest_good i p st short le caps)
  match_single-Good i text max_repeat p st short le caps = max_expand-Good i text p st short le caps
  match_single-Good i text max_repeat1 p st short le caps =
      if_cases (Good (length s) i st) (single_at ctype s rest i text)
        (λ h. one_more ctype s rest i text st _ h caps (max_expand-Good (suc i) text p st short))
        (λ h. refl)
  match_single-Good i text min_repeat p st short le caps = min_expand-Good i text p st short le caps

  pub match_item-Good :
      (i : ℕ) (it : Item) (st : MatchState)
      → Shorter n it
      → i ≤ length s
      → Captured i st
      → Good (length s) i st (match_item ctype s rest i it st)
  unfolding match_item
  match_item-Good i pattern_end st short le caps = (omega arith, le, caps)
  match_item-Good i (open_capture p) st short le caps =
      start_capture-Good i p unfinished st short le caps (omega arith)
  match_item-Good i (position_capture p) st short le caps =
      start_capture-Good i p position st short le caps (omega arith)
  match_item-Good i (close_capture p) st short le caps = end_capture-Good i p st short le caps
  match_item-Good i (balance b e p) st short le caps =
      go (matchbalance ctype s rest b e i) (matchbalance-Between ctype s rest b e i)
    where
      go :
          (o : Option ℕ)
          → Between i (length s) o
          → Good (length s) i st (elim o [ none ↦ failed st | some j ↦ rest j p st ])
      go none h = refl
      go (some j) (after, before) =
          Good-earlier (length s) i j st _ (omega arith)
            (rest_good j p st short before (Captured-later i j st (omega arith) caps))
  match_item-Good i (frontier set p) st short le caps =
      let previous = if i == 0 then 0 else get_or s (i - 1) 0 in
      if_both (Good (length s) i st)
        (matchbracketclass ctype previous set || not (matchbracketclass ctype (get_or s i 0) set))
        {x = failed st} refl (rest_good i p st short le caps)
  match_item-Good i (reference d p) st short le caps = match_capture-Good i d p st short le caps
  match_item-Good i subject_end st short le caps =
      if_both (Good (length s) i st) (i == length s) (omega arith, le, caps) refl
  match_item-Good i (single text suffix p) st short le caps =
      match_single-Good i text suffix p st short le caps
  match_item-Good i (malformed e) st short le caps = short
