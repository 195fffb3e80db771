-- ===== src/Patterns/Class.antt =====
-- Character classes (src/lstrlib.c): `match_class`, `matchbracketclass`, `singlematch`, `classend`.
use lunacy.Base.{
  ℕ, Bool, true, false, not, ◌&&◌, ◌||◌, [], ◌∷◌, Option, none, some, ◌==◌, leb, if◌then◌else◌,
  get_or,
}
use lunacy.Patterns.{Bytes, Ctype}

-- L_ESC
abbrev pub l_esc : ℕ
l_esc = b'%'

-- `*p`, which is 0 at the end.
abbrev pub char_at : Bytes → ℕ
char_at p = get_or p 0 0

module _ (ctype : Ctype) where
  -- `switch (tolower(cl))`; no class for any other letter.
  unfoldable pub class_test : ℕ → Option (ℕ → Bool)
  class_test l =
      if l == b'a'
      then some ctype.isalpha
      else if l == b'c'
      then some ctype.iscntrl
      else if l == b'd'
      then some ctype.isdigit
      else if l == b'l'
      then some ctype.islower
      else if l == b'p'
      then some ctype.ispunct
      else if l == b's'
      then some ctype.isspace
      else if l == b'u'
      then some ctype.isupper
      else if l == b'w'
      then some ctype.isalnum
      else if l == b'x'
      then some ctype.isxdigit
      else if l == b'z'
      then some (λ c. c == 0)
      else none

  unfoldable pub match_class : ℕ → ℕ → Bool
  match_class c cl = elim (class_test (ctype.tolower cl)) [
    | none ↦ cl == c
    | some test ↦ if ctype.islower cl then test c else not (test c)
  ]

  -- The loop of `matchbracketclass`, over the text between `[` or `[^` and `]`: whether an element of
  -- the set matches. An escape as the last byte takes the `]`.
  unfoldable pub in_set : ℕ → Bytes → Bool
  in_set c [] = false
  in_set c (a ∷ []) = if a == l_esc then match_class c b']' else a == c
  in_set c (a ∷ b ∷ []) =
      let rest = in_set c (b ∷ []) in if a == l_esc then match_class c b else (a == c || rest)
  in_set c (a ∷ b ∷ d ∷ t) =
      let after1 = in_set c (b ∷ d ∷ t) in
      let after2 = in_set c (d ∷ t) in
      let after3 = in_set c t in
      if a == l_esc
      then (match_class c b || after2)
      else (if b == b'-' then ((leb a c && leb c d) || after3) else (a == c || after1))

  -- `set` is the text after `[`.
  unfoldable pub matchbracketclass : ℕ → Bytes → Bool
  matchbracketclass c [] = in_set c []
  matchbracketclass c (a ∷ set) = if a == b'^' then not (in_set c set) else in_set c (a ∷ set)

  -- `text` is the text of the class, from `p` to `ep`.
  unfoldable pub singlematch : ℕ → Bytes → Bool
  singlematch c [] = false
  singlematch c (a ∷ text) =
      if a == b'.'
      then true
      else if a == l_esc
      then match_class c (char_at text)
      else if a == b'['
      then matchbracketclass c text
      else a == c

-- A class and the pattern behind it.
pub record Taken : Type 0 where
  pub text : Bytes
  pub rest : Bytes

abbrev pub with_byte : ℕ → Option Taken → Option Taken
with_byte a none = none
with_byte a (some t) = some (record t { text = a ∷ t.text })

-- The loop of `classend` for a set: the text up to `]`, and what is behind it. A `]` ends the set
-- unless it is the first element.
unfoldable pub set_end : (first : Bool) → Bytes → Option Taken
set_end first [] = none
set_end first (a ∷ []) =
    if a == b']' && not first then some (record { text = []; rest = [] }) else none
set_end first (a ∷ b ∷ p) =
    let after1 = set_end false (b ∷ p) in
    let after2 = set_end false p in
    if a == b']' && not first
    then some (record { text = []; rest = b ∷ p })
    else (if a == 0
        then none
        else (if a == l_esc && not (b == 0)
            then with_byte a (with_byte b after2)
            else with_byte a after1))

-- `classend`, for a pattern that starts with `a`: the text keeps the bytes that `singlematch` reads,
-- without the closing `]`.
unfoldable pub classend : ℕ → Bytes → Option Taken
classend a p =
    if a == l_esc
    then (if char_at p == 0
        then none
        else some (record { text = a ∷ char_at p ∷ []; rest = tail p }))
    else (if a == b'['
        then (if char_at p == b'^'
            then with_byte a (with_byte b'^' (set_end true (tail p)))
            else with_byte a (set_end true p))
        else some (record { text = a ∷ []; rest = p }))
  where
    tail : Bytes → Bytes
    tail [] = []
    tail (x ∷ xs) = xs
