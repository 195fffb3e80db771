-- ===== src/Patterns/Outcomes.antt =====
-- The outcomes of the functions of `match` (src/lstrlib.c): where a match ends, the captures that it
-- leaves, and what a failure leaves of the state.
use mathlib.Core.Path.{subst}
use lunacy.Base.{
  ℕ, zero, suc, ◌+◌, ◌-◌, ◌≤◌, ◌≡◌, refl, sym, ap, ◌∙◌, inl, inr, true, [], ◌∷◌, ◌++◌, some,
  Bool-cases, length, get_or, set, All, length-append, take-append, arith,
}
use lunacy.Patterns.{
  CapLen, unfinished, position, closed, Capture, MatchState, Outcome, matched, failed, raised,
}
use lunacy.Patterns.Match.{on_failure, pop, no_capture, set_len, is_unfinished, capture_to_close}
use lunacy.Patterns.Shorter.{Known}

-- The capture is over the subject before the position.
abbrev pub InsideLen : ℕ → ℕ → CapLen → Type 0
InsideLen i init unfinished = init ≤ i
InsideLen i init position = init ≤ i
InsideLen i init (closed n) = init + n ≤ i

abbrev pub Inside : ℕ → Capture → Type 0
Inside i c = InsideLen i c.init c.len

abbrev pub Captured : ℕ → MatchState → Type 0
Captured i st = All (Inside i) st

-- From `i` on, over a subject of `n` bytes: a match ends in the subject, its captures are before the
-- end, and a failure leaves the state `st`.
abbrev pub Good : ℕ → ℕ → MatchState → Outcome → Type 0
Good n i st (matched e st') = (i ≤ e) × (e ≤ n) × Captured e st'
Good n i st (failed st') = st' ≡ st
Good n i st (raised e) = Known e

InsideLen-later : (i j init : ℕ) (l : CapLen) → i ≤ j → InsideLen i init l → InsideLen j init l
InsideLen-later i j init unfinished le h = omega arith
InsideLen-later i j init position le h = omega arith
InsideLen-later i j init (closed n) le h = omega arith

pub Captured-later : (i j : ℕ) (st : MatchState) → i ≤ j → Captured i st → Captured j st
Captured-later i j [] le h = tt
Captured-later i j (c ∷ st) le (h, hs) =
    (InsideLen-later i j c.init c.len le h, Captured-later i j st le hs)

pub Captured-append :
    (i : ℕ) (st : MatchState) (c : Capture) → Captured i st → Inside i c → Captured i (st ++ c ∷ [])
Captured-append i [] c h hc = (hc, tt)
Captured-append i (x ∷ st) c (h, hs) hc = (h, Captured-append i st c hs hc)

Captured-set :
    (i : ℕ) (st : MatchState) (l : ℕ) (c : Capture)
    → Captured i st
    → Inside i c
    → Captured i (set st l c)
Captured-set i [] l c h hc = tt
Captured-set i (x ∷ st) zero c (h, hs) hc = (hc, hs)
Captured-set i (x ∷ st) (suc l) c (h, hs) hc = (h, Captured-set i st l c hs hc)

InsideLen-init : (i init : ℕ) (l : CapLen) → InsideLen i init l → init ≤ i
InsideLen-init i init unfinished h = h
InsideLen-init i init position h = h
InsideLen-init i init (closed n) h = omega arith

pub Captured-get_or :
    (i : ℕ) (st : MatchState) (l : ℕ) → Captured i st → Inside i (get_or st l no_capture)
Captured-get_or i [] l h = omega arith
Captured-get_or i (c ∷ st) zero (h, hs) = h
Captured-get_or i (c ∷ st) (suc l) (h, hs) = Captured-get_or i st l hs

-- To close a capture at the position keeps the captures before it.
pub Captured-set_len :
    (i : ℕ) (st : MatchState) (l : ℕ)
    → Captured i st
    → Captured i (set_len st l (closed (i - (get_or st l no_capture).init)))
Captured-set_len i st l h =
    let c = get_or st l no_capture in
    let before = InsideLen-init i c.init c.len (Captured-get_or i st l h) in
    Captured-set i st l _ h (omega arith)

pub pop-append : (st : MatchState) (c : Capture) → pop (st ++ c ∷ []) ≡ st
pop-append st c =
    let size = length-append st (c ∷ []) in
    take-append (length (st ++ c ∷ []) - 1) st (c ∷ []) (ground arith)

is_unfinished_iff : (l : CapLen) → is_unfinished l ≡ true → unfinished ≡ l
is_unfinished_iff unfinished h = refl
is_unfinished_iff position h = absurd cc
is_unfinished_iff (closed n) h = absurd cc

-- To unfinish a capture that was unfinished gives the state from before it was closed.
pub set_len-undo :
    (st : MatchState) (l : ℕ) (len : CapLen)
    → is_unfinished (get_or st l no_capture).len ≡ true
    → set_len (set_len st l len) l unfinished ≡ st
set_len-undo [] l len h = refl
set_len-undo (c ∷ st) zero len h = ap (λ l. record c { len = l } ∷ st) (is_unfinished_iff c.len h)
set_len-undo (c ∷ st) (suc l) len h = ap (λ t. c ∷ t) (set_len-undo st l len h)

pub capture_to_close-unfinished :
    (st : MatchState) (n l : ℕ)
    → capture_to_close st n ≡ some l
    → is_unfinished (get_or st l no_capture).len ≡ true
unfolding capture_to_close
capture_to_close-unfinished st zero l h = absurd cc
capture_to_close-unfinished st (suc n) l h =
    elim (Bool-cases (is_unfinished (get_or st n no_capture).len)) [
      | inl is ↦
          let here : some n ≡ some l = rw (is) at h in
          let same : n ≡ l = cc in
          subst (λ k. is_unfinished (get_or st k no_capture).len ≡ true) same is
      | inr isnt ↦ capture_to_close-unfinished st n l (rw (isnt) at h)
    ]

module _ (n : ℕ) where
  pub Good-earlier :
      (i j : ℕ) (st : MatchState) (o : Outcome) → i ≤ j → Good n j st o → Good n i st o
  Good-earlier i j st (matched e st') le (from, to, caps) = (omega arith, to, caps)
  Good-earlier i j st (failed st') le h = h
  Good-earlier i j st (raised e) le h = h

  -- Another attempt, after one that failed.
  pub Good-retry :
      (i : ℕ) (st : MatchState) (next : MatchState → Outcome) (o : Outcome)
      → Good n i st o
      → Good n i st (next st)
      → Good n i st (on_failure next o)
  Good-retry i st next (matched e st') h again = h
  Good-retry i st next (failed st') h again = subst (λ x. Good n i st (next x)) (sym h) again
  Good-retry i st next (raised e) h again = h

  -- A change to the state that a failure undoes.
  pub Good-undo :
      (i : ℕ) (st st1 : MatchState) (undo : MatchState → MatchState) (o : Outcome)
      → undo st1 ≡ st
      → Good n i st1 o
      → Good n i st (on_failure (λ st'. failed (undo st')) o)
  Good-undo i st st1 undo (matched e st') back h = h
  Good-undo i st st1 undo (failed st') back h = ap undo h ∙ back
  Good-undo i st st1 undo (raised e) back h = h
