-- ===== src/Patterns/Runs.antt =====
-- `match` (src/lstrlib.c) on a pattern, with a round for each byte of the pattern and one more.
use mathlib.Core.Path.{subst}
use lunacy.Base.{ℕ, zero, suc, ◌≤◌, ◌<◌, ◌≡◌, length, arith}
use lunacy.Patterns.{Bytes, Ctype, MatchState, matched, failed}
use lunacy.Patterns.Item.{item}
use lunacy.Patterns.Match.{match}
use lunacy.Patterns.Shorter.{item-Shorter}
use lunacy.Patterns.Outcomes.{Captured, Good}
use lunacy.Patterns.Steps.{match_item-Good}

pub match-Good :
    (ctype : Ctype) (s : Bytes) (rounds i : ℕ) (p : Bytes) (st : MatchState)
    → length p < rounds
    → i ≤ length s
    → Captured i st
    → Good (length s) i st (match ctype s rounds i p st)
unfolding match
match-Good ctype s zero i p st enough le caps = absurd (omega arith)
match-Good ctype s (suc rounds) i p st enough le caps =
    match_item-Good ctype s (match ctype s rounds) (length p)
      (λ j q st' short. match-Good ctype s rounds j q st' (omega arith)) i (item ctype p) st
      (item-Shorter ctype p) le caps

-- A match that fails leaves the state as it was: every capture that was opened or closed on the way,
-- in whatever order, is undone.
pub match-undo :
    (ctype : Ctype) (s : Bytes) (rounds i : ℕ) (p : Bytes) (st st' : MatchState)
    → length p < rounds
    → i ≤ length s
    → Captured i st
    → match ctype s rounds i p st ≡ failed st'
    → st' ≡ st
match-undo ctype s rounds i p st st' enough le caps h =
    subst (λ o. Good (length s) i st o) h (match-Good ctype s rounds i p st enough le caps)

-- A match ends in the subject, not before the position that it starts from, and every capture that
-- it leaves lies in the subject before that end.
pub match-bounds :
    (ctype : Ctype) (s : Bytes) (rounds i : ℕ) (p : Bytes) (st st' : MatchState) (e : ℕ)
    → length p < rounds
    → i ≤ length s
    → Captured i st
    → match ctype s rounds i p st ≡ matched e st'
    → (i ≤ e) × (e ≤ length s) × Captured e st'
match-bounds ctype s rounds i p st st' e enough le caps h =
    subst (λ o. Good (length s) i st o) h (match-Good ctype s rounds i p st enough le caps)
