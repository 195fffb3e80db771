-- ===== src/Patterns/Shorter.antt =====
-- Every round of `match` (src/lstrlib.c) goes on with a shorter pattern.
use lunacy.Base.{
  ℕ, suc, ◌≤◌, ◌<◌, Bool, true, false, not, ◌&&◌, [], ◌∷◌, Option, none, some, ◌==◌, if_both,
  length, arith,
}
use lunacy.Patterns.{Bytes, Ctype, PatternError, missing_bracket, out_of_rounds}
use lunacy.Patterns.Class.{l_esc, Taken, with_byte, set_end, classend}
use lunacy.Patterns.Item.{
  Item, pattern_end, open_capture, position_capture, close_capture, balance, frontier, reference,
  subject_end, single, malformed, class_error, with_suffix, class_item, balance_item, frontier_item,
  escape_item, item,
}

-- An error of the code, not the end of the fuel.
abbrev pub Known : PatternError → Type 0
Known out_of_rounds = ⊥
Known _ = Unit

-- The pattern behind a class, and behind an item, is shorter than `n`.
abbrev pub Behind : ℕ → Option Taken → Type 0
Behind n none = Unit
Behind n (some t) = length t.rest < n

abbrev pub Shorter : ℕ → Item → Type 0
Shorter n (open_capture p) = length p < n
Shorter n (position_capture p) = length p < n
Shorter n (close_capture p) = length p < n
Shorter n (balance b e p) = length p < n
Shorter n (frontier set p) = length p < n
Shorter n (reference d p) = length p < n
Shorter n (single text suffix p) = length p < n
Shorter n (malformed e) = Known e
Shorter n pattern_end = Unit
Shorter n subject_end = Unit

Behind-with_byte : (n a : ℕ) (o : Option Taken) → Behind n o → Behind n (with_byte a o)
Behind-with_byte n a none h = tt
Behind-with_byte n a (some t) h = h

Behind-le : (n m : ℕ) (o : Option Taken) → n ≤ m → Behind n o → Behind m o
Behind-le n m none le h = tt
Behind-le n m (some t) le h = omega arith

set_end-Behind : (first : Bool) (p : Bytes) → Behind (length p) (set_end first p)
unfolding set_end
set_end-Behind first [] = tt
set_end-Behind first (a ∷ []) = if_both (Behind 1) (a == b']' && not first) (omega arith) tt
set_end-Behind first (a ∷ b ∷ p) =
    let n = suc (suc (length p)) in
    let after2 = Behind-le (length p) n _ (omega arith) (set_end-Behind false p) in
    let after1 = Behind-le (suc (length p)) n _ (omega arith) (set_end-Behind false (b ∷ p)) in
    if_both (Behind n) (a == b']' && not first) (omega arith) (
      if_both (Behind n) (a == 0) tt (
        if_both (Behind n) (a == l_esc && not (b == 0))
          (Behind-with_byte n a _ (Behind-with_byte n b _ after2)) (Behind-with_byte n a _ after1)))

classend-Behind : (a : ℕ) (p : Bytes) → Behind (suc (length p)) (classend a p)
unfolding classend set_end
classend-Behind a [] =
    if_both (Behind 1) (a == l_esc) tt (if_both (Behind 1) (a == b'[') tt (omega arith))
classend-Behind a (x ∷ p) =
    let n = suc (suc (length p)) in
    let set1 = Behind-le (length p) n _ (omega arith) (set_end-Behind true p) in
    let set0 = Behind-le (suc (length p)) n _ (omega arith) (set_end-Behind true (x ∷ p)) in
    if_both (Behind n) (a == l_esc) (if_both (Behind n) (x == 0) tt (omega arith)) (
      if_both (Behind n) (a == b'[')
        (if_both (Behind n) (x == b'^') (Behind-with_byte n a _ (Behind-with_byte n b'^' _ set1))
          (Behind-with_byte n a _ set0))
        (omega arith))

with_suffix-Shorter : (n : ℕ) (text p : Bytes) → length p < n → Shorter n (with_suffix text p)
unfolding with_suffix
with_suffix-Shorter n text [] h = h
with_suffix-Shorter n text (e ∷ p) h =
    let behind : length p < n = omega arith in
    if_both (Shorter n) (e == b'?') behind (
      if_both (Shorter n) (e == b'*') behind
        (if_both (Shorter n) (e == b'+') behind (if_both (Shorter n) (e == b'-') behind h)))

class_item-Shorter : (a : ℕ) (p : Bytes) → Shorter (suc (length p)) (class_item a p)
unfolding class_item
class_item-Shorter a p = go (classend a p) (classend-Behind a p)
  where
    go :
        (o : Option Taken)
        → Behind (suc (length p)) o
        → Shorter
            (suc (length p))
            (elim o [ none ↦ malformed (class_error a) | some t ↦ with_suffix t.text t.rest ])
    go none h = if_both Known (a == l_esc) tt tt
    go (some t) h = with_suffix-Shorter (suc (length p)) t.text t.rest h

Shorter-suc : (n : ℕ) (i : Item) → Shorter n i → Shorter (suc n) i
Shorter-suc n (open_capture p) h = omega arith
Shorter-suc n (position_capture p) h = omega arith
Shorter-suc n (close_capture p) h = omega arith
Shorter-suc n (balance b e p) h = omega arith
Shorter-suc n (frontier set p) h = omega arith
Shorter-suc n (reference d p) h = omega arith
Shorter-suc n (single text suffix p) h = omega arith
Shorter-suc n (malformed e) h = h
Shorter-suc n pattern_end h = tt
Shorter-suc n subject_end h = tt

balance-Shorter : (p : Bytes) → Shorter (suc (length p)) (balance_item p)
unfolding balance_item
balance-Shorter [] = tt
balance-Shorter (b ∷ []) = tt
balance-Shorter (b ∷ e ∷ p) =
    let n = suc (suc (suc (length p))) in
    if_both (Shorter n) (b == 0) tt (if_both (Shorter n) (e == 0) tt (omega arith))

set-Shorter :
    (n : ℕ) (text rest : Bytes)
    → length rest < n
    → Shorter n (elim text [ [] ↦ malformed missing_bracket | x ∷ set ↦ frontier set rest ])
set-Shorter n [] rest h = tt
set-Shorter n (x ∷ set) rest h = h

frontier-Shorter : (p : Bytes) → Shorter (suc (length p)) (frontier_item p)
unfolding frontier_item
frontier-Shorter [] = tt
frontier-Shorter (a ∷ p) =
    let n = suc (suc (length p)) in
    if_both (Shorter n) (a == b'[') (go (classend a p) (classend-Behind a p)) tt
  where
    go :
        (o : Option Taken)
        → Behind (suc (length p)) o
        → Shorter (suc (suc (length p))) (elim o [
          | none ↦ malformed missing_bracket
          | some t ↦ elim t.text [ [] ↦ malformed missing_bracket | x ∷ set ↦ frontier set t.rest ]
        ])
    go none h = tt
    go (some t) h = set-Shorter (suc (suc (length p))) t.text t.rest (omega arith)

module _ (ctype : Ctype) where
  escape-Shorter : (p : Bytes) → Shorter (suc (length p)) (escape_item ctype p)
  unfolding escape_item
  escape-Shorter [] = class_item-Shorter l_esc []
  escape-Shorter (d ∷ p) =
      let n = suc (suc (length p)) in
      if_both (Shorter n) (d == b'b') (Shorter-suc _ _ (balance-Shorter p)) (
        if_both (Shorter n) (d == b'f') (Shorter-suc _ _ (frontier-Shorter p))
          (if_both (Shorter n) (ctype.isdigit d) (omega arith) (class_item-Shorter l_esc (d ∷ p))))

  -- The pattern that `match` goes on with is shorter than the one it was given.
  pub item-Shorter : (p : Bytes) → Shorter (length p) (item ctype p)
  unfolding item
  item-Shorter [] = tt
  item-Shorter (a ∷ []) = if_both (Shorter 1) (a == b'(') (omega arith) (
      if_both (Shorter 1) (a == b')') (omega arith) (
        if_both (Shorter 1) (a == l_esc) (escape-Shorter []) (
          if_both (Shorter 1) (a == 0) tt
            (if_both (Shorter 1) (a == b'$' && true) tt (class_item-Shorter a [])))))
  item-Shorter (a ∷ x ∷ p) =
      let n = suc (suc (length p)) in
      if_both (Shorter n) (a == b'(') (if_both (Shorter n) (x == b')') (omega arith) (omega arith))
        (if_both (Shorter n) (a == b')') (omega arith) (
          if_both (Shorter n) (a == l_esc) (escape-Shorter (x ∷ p)) (
            if_both (Shorter n) (a == 0) tt
              (if_both (Shorter n) (a == b'$' && x == 0) tt (class_item-Shorter a (x ∷ p))))))
