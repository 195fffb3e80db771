-- ===== src/Patterns/Match.antt =====
-- `match` (src/lstrlib.c) and the functions that it calls. The subject is `s`, and `rest` runs
-- `match` on a position, a pattern and a state. A failure gives the state that it leaves behind.
use lunacy.Base.{
  ℕ, zero, suc, ◌+◌, ◌-◌, Bool, true, false, not, ◌&&◌, ◌||◌, [], ◌∷◌, ◌++◌, Option, none, some,
  ltb, leb, ◌==◌, if◌then◌else◌, length, get_or, set, take, drop, same_bytes,
}
use lunacy.Patterns.{
  Bytes, Ctype, invalid_capture_index, invalid_pattern_capture, too_many_captures, out_of_rounds,
  CapLen, unfinished, position, closed, Capture, MatchState, max_captures, Outcome, matched, failed,
  raised,
}
use lunacy.Patterns.Class.{matchbracketclass, singlematch}
use lunacy.Patterns.Item.{
  Suffix, once, optional, max_repeat, max_repeat1, min_repeat, Item, pattern_end, open_capture,
  position_capture, close_capture, balance, frontier, reference, subject_end, single, malformed,
  item,
}

-- What a failure does next: undo a change to the state, or try something else.
abbrev pub on_failure : (MatchState → Outcome) → Outcome → Outcome
on_failure next (failed st) = next st
on_failure next o = o

-- `ms->level--`
abbrev pub pop : MatchState → MatchState
pop st = take (length st - 1) st

abbrev pub no_capture : Capture
no_capture = record { init = 0; len = unfinished }

-- `ms->capture[l].len = len`
abbrev pub set_len : MatchState → ℕ → CapLen → MatchState
set_len st l len = set st l (record (get_or st l no_capture) { len = len })

abbrev pub is_unfinished : CapLen → Bool
is_unfinished unfinished = true
is_unfinished _ = false

-- `capture_to_close`: the last one that is unfinished, of the first `level`.
unfoldable pub capture_to_close : MatchState → ℕ → Option ℕ
capture_to_close st zero = none
capture_to_close st (suc level) =
    let before = capture_to_close st level in
    if is_unfinished (get_or st level no_capture).len then some level else before

-- `check_capture`, for the digit `d`.
unfoldable pub check_capture : MatchState → ℕ → Option ℕ
check_capture st d =
    if ltb d b'1'
      || (leb (length st) (d - b'1') || is_unfinished (get_or st (d - b'1') no_capture).len)
    then none
    else some (d - b'1')

module _ (ctype : Ctype) (s : Bytes) (rest : ℕ → Bytes → MatchState → Outcome) where
  unfoldable pub start_capture : ℕ → Bytes → CapLen → MatchState → Outcome
  start_capture i p what st =
      if leb max_captures (length st)
      then raised too_many_captures
      else on_failure (λ st'. failed (pop st'))
          (rest i p (st ++ record { init = i; len = what } ∷ []))

  unfoldable pub end_capture : ℕ → Bytes → MatchState → Outcome
  end_capture i p st = elim (capture_to_close st (length st)) [
    | none ↦ raised invalid_pattern_capture
    | some l ↦
        on_failure (λ st'. failed (set_len st' l unfinished))
          (rest i p (set_len st l (closed (i - (get_or st l no_capture).init))))
  ]

  -- `memcmp` of a capture with the subject at `i`. A position capture has the length -2, which is
  -- more than there is as a `size_t`.
  unfoldable pub match_capture : ℕ → ℕ → Bytes → MatchState → Outcome
  match_capture i d p st = elim (check_capture st d) [
    | none ↦ raised invalid_capture_index
    | some l ↦
        let c = get_or st l no_capture in
        elim c.len [
          | closed n ↦
              if leb n (length s - i) && same_bytes (take n (drop c.init s)) (take n (drop i s))
              then rest (i + n) p st
              else failed st
          | _ ↦ failed st
        ]
  ]

  -- The loop of `matchbalance`, over the subject from `i` on, where `cont` are open.
  unfoldable pub balance_loop : ℕ → ℕ → ℕ → ℕ → Bytes → Option ℕ
  balance_loop b e cont i [] = none
  balance_loop b e cont i (c ∷ text) =
      let closes = balance_loop b e (cont - 1) (suc i) text in
      let opens = balance_loop b e (suc cont) (suc i) text in
      let other = balance_loop b e cont (suc i) text in
      if c == e
      then (if cont == 1 then some (suc i) else closes)
      else (if c == b then opens else other)

  unfoldable pub matchbalance : ℕ → ℕ → ℕ → Option ℕ
  matchbalance b e i =
      if get_or s i 0 == b then balance_loop b e 1 (suc i) (drop (suc i) s) else none

  -- `s<ms->src_end && singlematch(...)`
  abbrev pub single_at : ℕ → Bytes → Bool
  single_at i text = ltb i (length s) && singlematch ctype (get_or s i 0) text

  -- The first loop of `max_expand`, over the subject from a position on.
  unfoldable pub count_matches : Bytes → Bytes → ℕ
  count_matches text [] = 0
  count_matches text (c ∷ more) =
      let n = count_matches text more in if singlematch ctype c text then suc n else 0

  -- Its second loop.
  unfoldable pub max_tries : ℕ → Bytes → ℕ → MatchState → Outcome
  max_tries i p zero st = rest i p st
  max_tries i p (suc n) st = on_failure (max_tries i p n) (rest (i + suc n) p st)

  unfoldable pub max_expand : ℕ → Bytes → Bytes → MatchState → Outcome
  max_expand i text p st = max_tries i p (count_matches text (drop i s)) st

  -- The loop of `min_expand`, with at most `left` more repetitions.
  unfoldable pub min_tries : ℕ → ℕ → Bytes → Bytes → MatchState → Outcome
  min_tries zero i text p st = rest i p st
  min_tries (suc left) i text p st =
      on_failure (λ st'. if single_at i text then min_tries left (suc i) text p st' else failed st')
        (rest i p st)

  unfoldable pub min_expand : ℕ → Bytes → Bytes → MatchState → Outcome
  min_expand i text p st = min_tries (suc (length s - i)) i text p st

  unfoldable pub match_single : ℕ → Bytes → Suffix → Bytes → MatchState → Outcome
  match_single i text once p st = if single_at i text then rest (suc i) p st else failed st
  match_single i text optional p st =
      if single_at i text then on_failure (rest i p) (rest (suc i) p st) else rest i p st
  match_single i text max_repeat p st = max_expand i text p st
  match_single i text max_repeat1 p st =
      if single_at i text then max_expand (suc i) text p st else failed st
  match_single i text min_repeat p st = min_expand i text p st

  -- One round of `match`.
  unfoldable pub match_item : ℕ → Item → MatchState → Outcome
  match_item i pattern_end st = matched i st
  match_item i (open_capture p) st = start_capture i p unfinished st
  match_item i (position_capture p) st = start_capture i p position st
  match_item i (close_capture p) st = end_capture i p st
  match_item i (balance b e p) st = elim (matchbalance b e i) [
    | none ↦ failed st
    | some j ↦ rest j p st
  ]
  match_item i (frontier set p) st =
      let previous = if i == 0 then 0 else get_or s (i - 1) 0 in
      if matchbracketclass ctype previous set || not (matchbracketclass ctype (get_or s i 0) set)
      then failed st
      else rest i p st
  match_item i (reference d p) st = match_capture i d p st
  match_item i subject_end st = if i == length s then matched i st else failed st
  match_item i (single text suffix p) st = match_single i text suffix p st
  match_item i (malformed e) st = raised e

-- `match`: each round goes on in the pattern, so one more than its length is enough.
unfoldable pub match : Ctype → Bytes → ℕ → ℕ → Bytes → MatchState → Outcome
match ctype s zero i p st = raised out_of_rounds
match ctype s (suc rounds) i p st = match_item ctype s (match ctype s rounds) i (item ctype p) st
