-- ===== src/Patterns/Unchanged.antt =====
-- string.gsub (src/lstrlib.c): how a call ends, and the replacement that keeps the subject.
use mathlib.Core.Path.{subst}
use lunacy.Base.{
  ℕ, zero, suc, ◌+◌, ◌-◌, ◌≤◌, ◌<◌, ◌≡◌, ◌≢◌, refl, sym, ap, ◌∙◌, true, not, [], ◌∷◌, ◌++◌, Option,
  ◌==◌, if_both, length, get_or, drop, take, take-append-drop, append-nil, arith,
}
use lunacy.Base.Int.{ℤ}
use lunacy.Patterns.{Bytes, Ctype, MatchState, out_of_rounds, Result, ok, error}
use lunacy.Patterns.Class.{l_esc}
use lunacy.Patterns.Push.{slice}
use lunacy.Patterns.Find.{is_anchored, unanchored}
use lunacy.Patterns.Substitute.{
  Value, falsy, text_value, other_value, Replacement, by_text, by_function, by_table, escaped,
  before, add_s, add_result, add_value, str_gsub,
}
use lunacy.Patterns.Ends.{Ends, Ends-and_then, push_onecapture-Ends, push_captures-Ends}
use lunacy.Patterns.GsubLoop.{Added, Finished, gsub_loop-Finished}

module _ (ctype : Ctype) (number_text : ℕ → Bytes) (s : Bytes) where
  escaped-Ends : (st : MatchState) (i e d : ℕ) → Ends (escaped ctype number_text s st i e d)
  unfolding escaped
  escaped-Ends st i e d = if_both Ends (not (ctype.isdigit d)) tt (
      if_both Ends (d == b'0') tt
        (Ends-and_then _ _ (λ v. tt) (push_onecapture-Ends s st (d - b'1') i e)))

  before-Ends : (t : Bytes) (r : Result Bytes) → Ends r → Ends (before t r)
  before-Ends t (ok u) h = tt
  before-Ends t (error e) h = h

  add_s-Ends :
      (st : MatchState) (i e : ℕ) (news : Bytes) → Ends (add_s ctype number_text s st i e news)
  unfolding add_s
  add_s-Ends st i e [] = tt
  add_s-Ends st i e (a ∷ []) = if_both Ends (a == l_esc) (escaped-Ends st i e 0) tt
  add_s-Ends st i e (a ∷ d ∷ news) =
      let after1 = add_s-Ends st i e (d ∷ news) in
      let after2 = add_s-Ends st i e news in
      if_both Ends (a == l_esc)
        (Ends-and_then _ _ (λ t. before-Ends t _ after2) (escaped-Ends st i e d))
        (before-Ends (a ∷ []) _ after1)

  add_result-Ends : (i e : ℕ) (v : Value) → Ends (add_result ctype number_text s i e v)
  unfolding add_result
  add_result-Ends i e falsy = tt
  add_result-Ends i e (text_value t) = tt
  add_result-Ends i e other_value = tt

  add_value-Ends :
      (repl : Replacement) (st : MatchState) (i e : ℕ)
      → Ends (add_value ctype number_text s repl st i e)
  unfolding add_value
  add_value-Ends (by_text news) st i e = add_s-Ends st i e news
  add_value-Ends (by_function f) st i e =
      Ends-and_then _ _ (λ vs. add_result-Ends i e (f vs)) (push_captures-Ends s true st i e)
  add_value-Ends (by_table t) st i e =
      Ends-and_then _ _ (λ v. add_result-Ends i e (t v)) (push_onecapture-Ends s st 0 i e)

  abbrev Anything : ℕ → Bytes → Type 0
  Anything i b = Unit

  Added-Anything :
      (repl : Replacement) (e : ℕ) (b : Bytes) (r : Result Bytes)
      → Ends r
      → Added ctype number_text s repl Anything (λ t. Unit) e b r
  Added-Anything repl e b (ok t) h = tt
  Added-Anything repl e b (error err) h = h

  str_gsub-Ends :
      (p : Bytes) (repl : Replacement) (max_s : Option ℤ)
      → Finished ctype number_text s repl Anything
          (λ t. Unit)
          (str_gsub ctype number_text s p repl max_s)
  unfolding str_gsub
  str_gsub-Ends p repl max_s =
      gsub_loop-Finished ctype number_text s repl Anything (λ t. Unit)
        (λ st i e b from to inv. Added-Anything repl e b _ (add_value-Ends repl st i e))
        (λ i b less inv. tt) (λ i b inv. tt) (is_anchored p) (unanchored p) _ (suc (suc (length s)))
        0 0 [] (omega arith) (omega arith) tt

-- "%0"
abbrev pub whole_match : Bytes
whole_match = l_esc ∷ b'0' ∷ []

abbrev nothing : Bytes
nothing = []

take-nil : (n : ℕ) → nothing ≡ take n nothing
take-nil zero = refl
take-nil (suc n) = refl

take-take-drop : (i n m : ℕ) (s : Bytes) → m ≡ i + n → take i s ++ take n (drop i s) ≡ take m s
take-take-drop zero n m s h = let same : n ≡ m = omega arith in ap (λ k. take k s) same
take-take-drop (suc i) n zero s h = absurd (omega arith)
take-take-drop (suc i) n (suc m) [] h = sym (take-nil n)
take-take-drop (suc i) n (suc m) (a ∷ s) h = ap (λ t. a ∷ t) (take-take-drop i n m s (omega arith))

take-suc : (i : ℕ) (s : Bytes) → i < length s → take i s ++ get_or s i 0 ∷ [] ≡ take (suc i) s
take-suc i [] h = absurd (omega arith)
take-suc zero (a ∷ s) h = refl
take-suc (suc i) (a ∷ s) h = ap (λ t. a ∷ t) (take-suc i s (omega arith))

module _ (ctype : Ctype) (number_text : ℕ → Bytes) (s : Bytes)
    (zero_digit : ctype.isdigit b'0' ≡ true) where
  add_value-whole :
      (st : MatchState) (i e : ℕ)
      → add_value ctype number_text s (by_text whole_match) st i e ≡ ok (slice s i e)
  unfolding add_value add_s escaped
  add_value-whole st i e = rw (zero_digit, append-nil (slice s i e)) refl

  -- The buffer has the subject before the position.
  abbrev Prefix : ℕ → Bytes → Type 0
  Prefix i b = b ≡ take i s

  Prefix-slice : (i e : ℕ) (b : Bytes) → i ≤ e → Prefix i b → Prefix e (b ++ slice s i e)
  Prefix-slice i e b le inv =
      ap (λ t. t ++ slice s i e) inv ∙ take-take-drop i (e - i) e s (omega arith)

  Added-Prefix :
      (st : MatchState) (i e : ℕ) (b : Bytes)
      → i ≤ e
      → Prefix i b
      → Added ctype number_text s
          (by_text whole_match)
          Prefix
          (λ t. t ≡ s)
          e
          b
          (add_value ctype number_text s (by_text whole_match) st i e)
  Added-Prefix st i e b le inv =
      subst (Added ctype number_text s (by_text whole_match) Prefix (λ t. t ≡ s) e b)
        (sym (add_value-whole st i e)) (Prefix-slice i e b le inv)

  str_gsub-Finished :
      (p : Bytes) (max_s : Option ℤ)
      → Finished ctype number_text s
          (by_text whole_match)
          Prefix
          (λ t. t ≡ s)
          (str_gsub ctype number_text s p (by_text whole_match) max_s)
  unfolding str_gsub
  str_gsub-Finished p max_s =
      gsub_loop-Finished ctype number_text s (by_text whole_match) Prefix (λ t. t ≡ s)
        (λ st i e b from to inv. Added-Prefix st i e b from inv)
        (λ i b less inv. ap (λ t. t ++ get_or s i 0 ∷ []) inv ∙ take-suc i s less)
        (λ i b inv. ap (λ t. t ++ drop i s) inv ∙ take-append-drop i s) (is_anchored p)
        (unanchored p) _ (suc (suc (length s))) 0 0 [] (omega arith) (omega arith) refl

-- string.gsub ends for every subject, pattern, replacement and limit, with a text or with an error
-- of the library: neither its rounds nor those of `match` run out.
pub str_gsub-ends :
    (ctype : Ctype) (number_text : ℕ → Bytes) (s p : Bytes) (repl : Replacement) (max_s : Option ℤ)
    → str_gsub ctype number_text s p repl max_s ≢ error out_of_rounds
str_gsub-ends ctype number_text s p repl max_s h =
    subst (Finished ctype number_text s repl (Anything ctype number_text s) (λ t. Unit)) h
      (str_gsub-Ends ctype number_text s p repl max_s)

-- With the replacement %0, the whole match, string.gsub gives the subject back, for every pattern
-- and limit for which it raises no error. The hypothesis is that `isdigit` holds of '0'.
pub str_gsub-whole :
    (ctype : Ctype) (number_text : ℕ → Bytes) (s p t : Bytes) (max_s : Option ℤ) (n : ℕ)
    → ctype.isdigit b'0' ≡ true
    → str_gsub ctype number_text s p (by_text whole_match) max_s ≡ ok (t, n)
    → t ≡ s
str_gsub-whole ctype number_text s p t max_s n zero_digit h =
    subst
      (Finished ctype number_text s (by_text whole_match) (Prefix ctype number_text s zero_digit)
        (λ t'. t' ≡ s))
      h (str_gsub-Finished ctype number_text s zero_digit p max_s)
