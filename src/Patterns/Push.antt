-- ===== src/Patterns/Push.antt =====
-- The captures as values for the program (src/lstrlib.c): `push_onecapture`, `push_captures`. The
-- stack has room for them.
use lunacy.Base.{
  ℕ, zero, suc, ◌+◌, ◌-◌, Bool, ◌&&◌, List, [], ◌∷◌, leb, ◌==◌, if◌then◌else◌, length, get_or, take,
  drop,
}
use lunacy.Patterns.{
  Bytes, invalid_capture_index, unfinished_capture, unfinished, position, closed, Capture,
  MatchState, Pushed, pushed_number, pushed_text, Result, ok, error, and_then,
}
use lunacy.Patterns.Match.{no_capture}

-- `lua_pushlstring(L, s, e - s)`
abbrev pub slice : Bytes → ℕ → ℕ → Bytes
slice s i e = take (e - i) (drop i s)

module _ (s : Bytes) where
  unfoldable pub push_capture : Capture → Result Pushed
  push_capture c = elim c.len [
    | unfinished ↦ error unfinished_capture
    | position ↦ ok (pushed_number (c.init + 1))
    | closed n ↦ ok (pushed_text (slice s c.init (c.init + n)))
  ]

  -- The capture `k`; the match is from `i` to `e`.
  unfoldable pub push_onecapture : MatchState → ℕ → ℕ → ℕ → Result Pushed
  push_onecapture st k i e =
      if leb (length st) k
      then (if k == 0 then ok (pushed_text (slice s i e)) else error invalid_capture_index)
      else push_capture (get_or st k no_capture)

  -- The loop, over the `count` captures from `k` on.
  unfoldable pub push_loop : MatchState → ℕ → ℕ → ℕ → ℕ → Result (List Pushed)
  push_loop st i e k zero = ok []
  push_loop st i e k (suc count) =
      and_then (λ v. and_then (λ vs. ok (v ∷ vs)) (push_loop st i e (suc k) count))
        (push_onecapture st k i e)

  -- Without captures, the whole match stands for one if `whole` is set.
  unfoldable pub push_captures : Bool → MatchState → ℕ → ℕ → Result (List Pushed)
  push_captures whole st i e = push_loop st i e 0 (if length st == 0 && whole then 1 else length st)
