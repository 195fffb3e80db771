-- ===== src/Tests/Hashes.antt =====
-- Tables with numbers and strings as keys (src/ltable.c).
use mathlib.Core.Path.{subst}
use lunacy.Base.{
  ℕ, ◌+◌, ◌^◌, ◌≤◌, ◌<◌, ◌≡◌, refl, ap, true, false, [], ◌∷◌, ◌++◌, Option, some, none, ltb, ◌==◌,
  if◌then◌else◌, length, arith,
}
use lunacy.Object.{ceillog2, log2, log2_loop}
use lunacy.Tables.{computesizes, computesizes_loop}
use lunacy.Tables.Hash.{
  Keys, HashPart, getfreepos, previous, move_node, chain_node, search, find, collide, newkey,
  place_for, put,
}
use lunacy.Tables.Hash
use lunacy.Tables.Hash.Assign.{Assigned, put-Assigned}
use lunacy.Tables.Access.{
  Indices, Table, Outcome, done, table_overflow, no_free_place, get, setnodevector, table_new,
  assign, reinsert, entries, slice_entries, node_entries, resize,
}
use lunacy.Tables.Reinsert.{SoundTable, spilled, inside}
use lunacy.Tables.Fresh.{EmptyTable, table_new-EmptyTable}
use lunacy.Tables.Resize.{Resized, resize-Resized}
use lunacy.Tables.Rehash.{
  numusearray_loop, present, countint, count_entries, numusehash, new_sizes, rehash, table_set,
}
use lunacy.Tables.Set.{SetTo, table_set-SetTo, new_sizes_lem}
use lunacy.Tables.Next.{next_element, next_node, findindex, step_from, table_next, traverse}
use lunacy.Tables.Traversal.{traverse-all}
use lunacy.Tables.Scans.{listed, array_at, node_at}
use lunacy.Tables.Keys.{
  Numbers, Key, number, tagged, hashnum, rawequal_obj, mainposition, lua_keys, lua_indices,
}

eq_refl : (n : ℕ) → (n == n) ≡ true
eq_refl n = ground arith

eq_sym : (n m : ℕ) → (n == m) ≡ true → (m == n) ≡ true
eq_sym n m e = ground (arith, e)

eq_trans : (n m p : ℕ) → (n == m) ≡ true → (m == p) ≡ true → (n == p) ≡ true
eq_trans n m p e f = ground (arith, e, f)

same_as : {A : Type 0} (f : ℕ → A) (n m : ℕ) → (n == m) ≡ true → f n ≡ f m
same_as f n m e = let same : n ≡ m = ground (arith, e) in ap f same

abbrev to_int : ℕ → ℕ
to_int n = if ltb n (2 ^ 31) then n else 0

to_int_id : (i : ℕ) → i < 2 ^ 31 → to_int i ≡ i
to_int_id i less = ground arith

to_int_one : (n : ℕ) → 0 < to_int n → (n == to_int n) ≡ true
to_int_one n some_int = ground (arith, some_int)

-- Natural numbers for lua_Number.
abbrev naturals : Numbers ℕ
naturals = record {
  numeq = λ n m. n == m;
  is_zero = λ n. n == 0;
  words = λ n. n ∷ [];
  number2int = to_int;
  cast_num = λ i. i;
  numeq_refl = eq_refl;
  numeq_sym = eq_sym;
  numeq_trans = eq_trans;
  same_zero = same_as (λ n. n == 0);
  same_words = λ n m e z. same_as (λ n. n ∷ []) n m e;
  number2int-cast_num = to_int_id;
  same_int = same_as to_int;
  one_number = to_int_one;
}

abbrev keys : Keys (Key ℕ)
keys = lua_keys naturals (λ address. address)

abbrev indices : Indices keys
indices = lua_indices naturals (λ address. address)

abbrev string_at : ℕ → Key ℕ
string_at address = tagged 4 address

abbrev or_table : Outcome (Table (Key ℕ) ℕ) → Table (Key ℕ) ℕ → Table (Key ℕ) ℕ
or_table (done t) u = t
or_table table_overflow u = u
or_table no_free_place u = u

-- `t[k] = v`
abbrev with_value : Table (Key ℕ) ℕ → Key ℕ → ℕ → Table (Key ℕ) ℕ
with_value t k v = or_table (table_set keys indices 1 t k (some v)) t

-- No elements and four nodes.
abbrev new_table : Table (Key ℕ) ℕ
new_table = record {
  array = [];
  hash = record {
    node = λ i. record { key = none; val = none; next = none };
    size = 4;
    lastfree = 4;
    is_dummy = false;
  };
}

new_table_run : table_new 0 4 ≡ done new_table
unfolding table_new setnodevector ceillog2 log2 log2_loop
new_table_run = refl

-- The strings at 1 and 5 collide; then the one at 3 moves that at 5 out of its place.
abbrev three_strings : Table (Key ℕ) ℕ
three_strings =
    with_value (with_value (with_value new_table (string_at 1) 10) (string_at 5) 50) (string_at 3)
      30

moved_string : get keys indices three_strings (string_at 5) ≡ some 50
unfolding table_set assign put place_for find search newkey getfreepos collide move_node chain_node
    previous get Hash.get rawequal_obj mainposition
moved_string = refl

moved_place : find keys three_strings.hash (string_at 5) ≡ some 2
unfolding table_set assign put place_for find search newkey getfreepos collide move_node chain_node
    previous get Hash.get rawequal_obj mainposition
moved_place = refl

new_table-Sound : SoundTable keys indices new_table
new_table-Sound =
    go (table_new 0 4) (table_new-EmptyTable ℕ keys indices 0 4 (omega arith)) new_table_run
  where
    go :
        (o : Outcome (Table (Key ℕ) ℕ))
        → EmptyTable ℕ keys indices 0 4 o
        → o ≡ done new_table
        → SoundTable keys indices new_table
    go (done t) h e =
        subst (SoundTable keys indices)
          (ap (λ (o : Outcome (Table (Key ℕ) ℕ)). or_table o new_table) e) h.0
    go table_overflow h e = absurd cc
    go no_free_place h e = absurd cc

-- A table that the theorems apply to.
abbrev Usable : Table (Key ℕ) ℕ → Type 0
Usable t = SoundTable keys indices t × (length t.array ≤ 2 ^ 26)

with_value-Usable : (t : Table (Key ℕ) ℕ) (k : Key ℕ) (v : ℕ) → Usable t → Usable (with_value t k v)
with_value-Usable t k v (sound, small) =
    go (table_set keys indices 1 t k (some v))
      (table_set-SetTo keys indices 0 t k (some v) sound small)
  where
    go : (o : Outcome (Table (Key ℕ) ℕ)) → SetTo keys indices t k (some v) o → Usable (or_table o t)
    go (done u) (u_sound, u_small, values) = (u_sound, u_small)
    go table_overflow h = (sound, small)
    go no_free_place h = absurd h

-- All four nodes are taken.
abbrev four_keys : Table (Key ℕ) ℕ
four_keys = with_value three_strings (number 7) 70

four_keys-Usable : Usable four_keys
four_keys-Usable = with_value-Usable three_strings (number 7) 70 (
    with_value-Usable (with_value (with_value new_table (string_at 1) 10) (string_at 5) 50)
      (string_at 3) 30
      (with_value-Usable (with_value new_table (string_at 1) 10) (string_at 5) 50
        (with_value-Usable new_table (string_at 1) 10 (new_table-Sound, omega arith))))

table_set-SetTo_example :
    SetTo keys indices four_keys
      (number 1)
      (some 11)
      (table_set keys indices 1 four_keys (number 1) (some 11))
table_set-SetTo_example =
    table_set-SetTo keys indices 0 four_keys (number 1) (some 11) four_keys-Usable.0
      four_keys-Usable.1

-- The rehash gives an array part of one element.
new_sizes_run : new_sizes keys indices four_keys (number 1) ≡ (1, 4)
unfolding table_set assign put place_for find search newkey getfreepos collide move_node chain_node
    previous Hash.get rawequal_obj mainposition hashnum new_sizes numusehash numusearray_loop
    present countint count_entries computesizes computesizes_loop ceillog2 log2 log2_loop
    node_entries
new_sizes_run = refl

one_element : get keys indices (with_value four_keys (number 1) 11) (number 1) ≡ some 11
unfolding table_set assign put place_for find search newkey getfreepos collide move_node chain_node
    previous get Hash.get rawequal_obj mainposition hashnum new_sizes numusehash numusearray_loop
    present countint count_entries computesizes computesizes_loop ceillog2 log2 log2_loop
    node_entries rehash resize reinsert entries slice_entries setnodevector
one_element = refl

new_sizes_lem_example :
    ((new_sizes keys indices four_keys (number 1)).0 ≤ 2 ^ 26)
    × (spilled keys indices
            (new_sizes keys indices four_keys (number 1)).0
            (entries keys indices four_keys (new_sizes keys indices four_keys (number 1)).0)
          + (if inside keys indices (new_sizes keys indices four_keys (number 1)).0 (number 1)
              then 0
              else 1)
        ≤ (new_sizes keys indices four_keys (number 1)).1)
new_sizes_lem_example =
    new_sizes_lem keys indices four_keys (number 1) four_keys-Usable.0 four_keys-Usable.1

-- Room for three keys in the hash part and two in the array part, and one more.
entries_fit : spilled keys indices 2 (entries keys indices four_keys 2) + 1 ≤ 8
unfolding spilled entries node_entries slice_entries table_set assign put place_for find search
    newkey getfreepos collide move_node chain_node previous Hash.get rawequal_obj mainposition
    hashnum
entries_fit = omega arith

resize-Resized_example : Resized keys indices four_keys 2 8 1 (resize keys indices four_keys 2 8)
resize-Resized_example =
    resize-Resized keys indices four_keys 2 8 1 four_keys-Usable.0 (omega arith) entries_fit

-- The string at 9 goes to the chain of those at 1 and 5.
abbrev or_hash : Option (HashPart (Key ℕ) ℕ) → HashPart (Key ℕ) ℕ
or_hash (some h) = h
or_hash none = new_table.hash

abbrev chained_hash : HashPart (Key ℕ) ℕ
chained_hash = or_hash (put keys three_strings.hash (string_at 9) (some 90))

chained_run : put keys three_strings.hash (string_at 9) (some 90) ≡ some chained_hash
unfolding table_set assign put place_for find search newkey getfreepos collide move_node chain_node
    previous Hash.get rawequal_obj mainposition hashnum
chained_run = refl

three_strings-Usable : Usable three_strings
three_strings-Usable =
    with_value-Usable (with_value (with_value new_table (string_at 1) 10) (string_at 5) 50)
      (string_at 3) 30
      (with_value-Usable (with_value new_table (string_at 1) 10) (string_at 5) 50
        (with_value-Usable new_table (string_at 1) 10 (new_table-Sound, omega arith)))

put-Assigned_example : Assigned keys three_strings.hash (string_at 9) (some 90) chained_hash
put-Assigned_example =
    put-Assigned keys three_strings.hash (string_at 9) (some 90) chained_hash
      three_strings-Usable.0.sound chained_run

four_keys_steps : length four_keys.array + four_keys.hash.size < 5
unfolding table_set assign put place_for find search newkey getfreepos collide move_node chain_node
    previous Hash.get rawequal_obj mainposition hashnum
four_keys_steps = omega arith

traverse-all_example :
    traverse keys indices 5 four_keys none
    ≡ some (
        listed (array_at indices.of_index four_keys.array) (length four_keys.array) 0
        ++ listed (node_at four_keys.hash.node) four_keys.hash.size 0)
traverse-all_example = traverse-all keys indices four_keys four_keys-Usable.0 5 four_keys_steps

four_entries :
    traverse keys indices 5 four_keys none
    ≡ some ((number 7, 70) ∷ (string_at 1, 10) ∷ (string_at 5, 50) ∷ (string_at 3, 30) ∷ [])
unfolding table_set assign put place_for find search newkey getfreepos collide move_node chain_node
    previous Hash.get rawequal_obj mainposition hashnum traverse table_next findindex step_from
    next_element next_node
four_entries = refl

table_new-EmptyTable_example : EmptyTable ℕ keys indices 3 5 (table_new 3 5)
table_new-EmptyTable_example = table_new-EmptyTable ℕ keys indices 3 5 (omega arith)
