-- ===== src/Patterns/Item.antt =====
-- The `switch` of `match` (src/lstrlib.c): what the pattern starts with, and the pattern behind it.
use lunacy.Base.{ℕ, ◌&&◌, [], ◌∷◌, none, some, ◌==◌, if◌then◌else◌}
use lunacy.Patterns.{
  Bytes, Ctype, PatternError, ends_with_escape, missing_bracket, unbalanced_pattern, missing_set,
}
use lunacy.Patterns.Class.{l_esc, char_at, classend}

-- What follows a class.
pub data Suffix : Type 0 where
  once optional max_repeat max_repeat1 min_repeat : Suffix

pub data Item : Type 0 where
  pattern_end : Item
  open_capture : Bytes → Item
  position_capture : Bytes → Item
  close_capture : Bytes → Item
  balance : ℕ → ℕ → Bytes → Item
  frontier : Bytes → Bytes → Item
  reference : ℕ → Bytes → Item
  subject_end : Item
  single : Bytes → Suffix → Bytes → Item
  malformed : PatternError → Item

-- `switch (*ep)`
unfoldable pub with_suffix : Bytes → Bytes → Item
with_suffix text [] = single text once []
with_suffix text (e ∷ p) =
    if e == b'?'
    then single text optional p
    else if e == b'*'
    then single text max_repeat p
    else if e == b'+'
    then single text max_repeat1 p
    else if e == b'-'
    then single text min_repeat p
    else single text once (e ∷ p)

abbrev pub class_error : ℕ → PatternError
class_error a = if a == l_esc then ends_with_escape else missing_bracket

-- `dflt`: a class.
unfoldable pub class_item : ℕ → Bytes → Item
class_item a p = elim (classend a p) [
  | none ↦ malformed (class_error a)
  | some t ↦ with_suffix t.text t.rest
]

-- `%b`: both bytes are there.
unfoldable pub balance_item : Bytes → Item
balance_item [] = malformed unbalanced_pattern
balance_item (b ∷ []) = malformed unbalanced_pattern
balance_item (b ∷ e ∷ p) =
    if b == 0
    then malformed unbalanced_pattern
    else if e == 0
    then malformed unbalanced_pattern
    else balance b e p

-- `%f`: a set, whose text after `[` is kept.
unfoldable pub frontier_item : Bytes → Item
frontier_item [] = malformed missing_set
frontier_item (a ∷ p) =
    if a == b'['
    then elim (classend a p) [
      | none ↦ malformed missing_bracket
      | some t ↦ elim t.text [ [] ↦ malformed missing_bracket | x ∷ set ↦ frontier set t.rest ]
    ]
    else malformed missing_set

module _ (ctype : Ctype) where
  -- After `%`.
  unfoldable pub escape_item : Bytes → Item
  escape_item [] = class_item l_esc []
  escape_item (d ∷ p) =
      if d == b'b'
      then balance_item p
      else if d == b'f'
      then frontier_item p
      else if ctype.isdigit d
      then reference d p
      else class_item l_esc (d ∷ p)

  unfoldable pub item : Bytes → Item
  item [] = pattern_end
  item (a ∷ p) =
      if a == b'('
      then (if char_at p == b')' then position_capture (drop_one p) else open_capture p)
      else if a == b')'
      then close_capture p
      else if a == l_esc
      then escape_item p
      else if a == 0
      then pattern_end
      else if a == b'$' && char_at p == 0
      then subject_end
      else class_item a p
    where
      drop_one : Bytes → Bytes
      drop_one [] = []
      drop_one (x ∷ xs) = xs
