-- ===== src/Patterns/Substitute.antt =====
-- string.gsub (src/lstrlib.c). A number is a text by `number_text`, as `lua_tolstring` gives it.
-- `luaL_Buffer` is the text that it holds.
use lunacy.Base.{
  ℕ, zero, suc, ◌-◌, Bool, true, not, List, [], ◌∷◌, ◌++◌, Option, none, some, ltb, leb, ◌==◌,
  if◌then◌else◌, length, get_or, drop,
}
use lunacy.Base.Int.{ℤ, pos, negsuc}
use lunacy.Patterns.{
  Bytes, Ctype, MatchState, matched, failed, raised, Pushed, pushed_nil, pushed_number, pushed_text,
  out_of_rounds, invalid_replacement, Result, ok, error, and_then,
}
use lunacy.Patterns.Class.{l_esc}
use lunacy.Patterns.Push.{slice, push_onecapture, push_captures}
use lunacy.Patterns.Find.{is_anchored, unanchored, match_at}

-- What a replacement gives: nil or false, a text, or a value that is none.
pub data Value : Type 0 where
  falsy : Value
  text_value : Bytes → Value
  other_value : Value

-- The third argument. A call of a function and a look-up in a table are functions of their arguments.
pub data Replacement : Type 0 where
  by_text : Bytes → Replacement
  by_function : (List Pushed → Value) → Replacement
  by_table : (Pushed → Value) → Replacement

abbrev pub before : Bytes → Result Bytes → Result Bytes
before t r = and_then (λ u. ok (t ++ u)) r

-- The text that is done, and the number of substitutions.
abbrev pub Done : Type 0
Done = Bytes × ℕ

module _ (ctype : Ctype) (number_text : ℕ → Bytes) (s : Bytes) where
  abbrev pub text_of : Pushed → Bytes
  text_of pushed_nil = []
  text_of (pushed_number n) = number_text n
  text_of (pushed_text t) = t

  -- What stands for `%` and a byte, for a match from `i` to `e`.
  unfoldable pub escaped : MatchState → ℕ → ℕ → ℕ → Result Bytes
  escaped st i e d =
      if not (ctype.isdigit d)
      then ok (d ∷ [])
      else if d == b'0'
      then ok (slice s i e)
      else and_then (λ v. ok (text_of v)) (push_onecapture s st (d - b'1') i e)

  -- The loop of `add_s`, over the replacement. Behind a `%` at its end is its ending 0.
  unfoldable pub add_s : MatchState → ℕ → ℕ → Bytes → Result Bytes
  add_s st i e [] = ok []
  add_s st i e (a ∷ []) = if a == l_esc then escaped st i e 0 else ok (a ∷ [])
  add_s st i e (a ∷ d ∷ news) =
      let after1 = add_s st i e (d ∷ news) in
      let after2 = add_s st i e news in
      if a == l_esc
      then and_then (λ t. before t after2) (escaped st i e d)
      else before (a ∷ []) after1

  -- The end of `add_value`.
  unfoldable pub add_result : ℕ → ℕ → Value → Result Bytes
  add_result i e falsy = ok (slice s i e)
  add_result i e (text_value t) = ok t
  add_result i e other_value = error invalid_replacement

  unfoldable pub add_value : Replacement → MatchState → ℕ → ℕ → Result Bytes
  add_value (by_text news) st i e = add_s st i e news
  add_value (by_function f) st i e =
      and_then (λ vs. add_result i e (f vs)) (push_captures s true st i e)
  add_value (by_table t) st i e = and_then (λ v. add_result i e (t v)) (push_onecapture s st 0 i e)

  -- The end of a round: past a match that is not empty, or past one byte. `next` is the next round.
  unfoldable pub gsub_on : Bool → (ℕ → Bytes → Result Done) → ℕ → ℕ → ℕ → Bytes → Result Done
  gsub_on anchor next n i e b =
      let stop : ℕ → Bytes → Result Done = λ i' b'. ok (b' ++ drop i' s, n) in
      if ltb i e
      then (if anchor then stop e b else next e b)
      else if ltb i (length s)
      then (let b' = b ++ get_or s i 0 ∷ [] in if anchor then stop (suc i) b' else next (suc i) b')
      else stop i b

  -- The loop, with the buffer `b` and `n` substitutions, from the position `i` on.
  unfoldable pub gsub_loop : Bool → Bytes → Replacement → ℕ → ℕ → ℕ → ℕ → Bytes → Result Done
  gsub_loop anchor p repl max_s zero n i b = error out_of_rounds
  gsub_loop anchor p repl max_s (suc rounds) n i b =
      if leb max_s n then ok (b ++ drop i s, n) else elim (match_at ctype s p i) [
        | raised err ↦ error err
        | failed st ↦ gsub_on anchor (gsub_loop anchor p repl max_s rounds n) n i i b
        | matched e st ↦
            and_then
              (λ t.
                gsub_on anchor (gsub_loop anchor p repl max_s rounds (suc n)) (suc n) i e (b ++ t))
              (add_value repl st i e)
      ]

  -- `max_s` is an `int`, or the length of the subject and one, which is taken to be an `int` too; no
  -- round is run for a negative one. Every round but the last goes past a byte, so two more rounds
  -- than the subject has bytes are enough.
  unfoldable pub str_gsub : Bytes → Replacement → Option ℤ → Result Done
  str_gsub p repl max_s =
      gsub_loop (is_anchored p) (unanchored p) repl (limit max_s) (suc (suc (length s))) 0 0 []
    where
      limit : Option ℤ → ℕ
      limit none = suc (length s)
      limit (some (pos n)) = n
      limit (some (negsuc n)) = 0
