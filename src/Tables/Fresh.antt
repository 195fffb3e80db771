-- ===== src/Tables/Fresh.antt =====
-- New node arrays and new tables (src/ltable.c).
use native.Mathlib.Nat.{pow-suc}
use lunacy.Base.{
  ℕ, zero, suc, ◌+◌, ◌-◌, ◌^◌, ◌≤◌, ◌<◌, ◌≡◌, refl, inl, inr, Bool, true, false, Option, none, ltb,
  ◌==◌, if_cases, if_both, length, replicate, length-replicate, arith,
}
use lunacy.Object.Log2.{ceillog2_lem}
use lunacy.Tables.Hash.{Keys, Nodes, HashPart, find, search, val_at}
use lunacy.Tables.Hash
use lunacy.Tables.Hash.Chains.{Chained}
use lunacy.Tables.Hash.Newkey.{Sound}
use lunacy.Tables.Hash.Used.{used}
use lunacy.Tables.Access.{
  Indices, Table, Outcome, done, table_overflow, no_free_place, in_array, get, and_then, empty_node,
  max_bits, node_vector, setnodevector, table_new,
}
use lunacy.Tables.Elements.{element-replicate}
use lunacy.Tables.Reinsert.{SoundTable, Fits}

pow_add_27 : (d : ℕ) → 2 ^ 27 ≤ 2 ^ (27 + d)
pow_add_27 zero = omega arith
pow_add_27 (suc d) =
    let e : 27 + suc d ≡ suc (27 + d) = omega arith in
    rw e (omega (arith, pow_add_27 d, pow-suc 2 (27 + d)))

pow_27 : (m : ℕ) → 26 < m → 2 ^ 27 ≤ 2 ^ m
pow_27 m big = let e : 27 + (m - 27) ≡ m = omega arith in rw e at (pow_add_27 (m - 27))

used-fresh : (K V : Type 0) (size : ℕ) → used {K = K} {V = V} (λ i. empty_node) size ≡ 0
unfolding used
used-fresh K V zero = refl
used-fresh K V (suc size) = used-fresh K V size

module _ {K : Type 0} (V : Type 0) (keys : Keys K) where
  -- A new node array has no keys.
  fresh-Chained : (size : ℕ) → Chained {V = V} keys size (λ i. empty_node)
  fresh-Chained size = record {
    height = λ i. 0;
    lower = λ i j e. absurd cc;
    target = λ i j e. absurd cc;
    source = λ i j e. absurd cc;
    one_before = λ i i' j e e'. absurd cc;
    reached = λ i k less e. absurd cc;
    owner = λ i k less e. absurd cc;
    distinct = λ i j k l less less' e e' same. absurd cc;
    empty = λ i e. refl;
  }

  get-fresh :
      (size lastfree : ℕ) (b : Bool) (l : K)
      → Hash.get {V = V} keys (node_vector size lastfree b) l ≡ none
  unfolding Hash.get find search
  get-fresh size lastfree b l = go (keys.main_position size l) size
    where
      go :
          (i rounds : ℕ)
          → val_at {K = K} {V = V}
              (λ j. empty_node)
              (search {V = V} keys rounds (λ j. empty_node) i l)
            ≡ none
      go i zero = refl
      go i (suc rounds) = refl

  -- The node array has room for `n` keys and is empty.
  abbrev pub Fresh : ℕ → Outcome (HashPart K V) → Type 0
  Fresh n (done h) = Sound keys h × Fits keys h n × ((l : K) → Hash.get keys h l ≡ none)
  Fresh n table_overflow = 2 ^ 26 < n
  Fresh n no_free_place = ⊥

  fresh-Sound :
      (size lastfree : ℕ) (b : Bool)
      → 0 < size
      → lastfree ≤ size
      → (b ≡ true → lastfree ≡ 0)
      → Sound {V = V} keys (node_vector size lastfree b)
  fresh-Sound size lastfree b room le dummy = record {
    chained = fresh-Chained size;
    room = room;
    free-le = le;
    dummy_full = dummy;
  }

  pub setnodevector-Fresh : (n : ℕ) → Fresh n (setnodevector {K = K} {V = V} n)
  unfolding setnodevector
  setnodevector-Fresh n =
      if_cases (Fresh n) (n == 0)
        (λ zero. (
          fresh-Sound 1 0 true (omega arith) (omega arith) (λ e. refl),
          inl (ground (arith, zero)),
          get-fresh 1 0 true,
        ))
        (λ some_keys.
          let (m, log, le, lt) = ceillog2_lem n (ground (arith, some_keys)) in
          rw log (
            if_cases (Fresh n) (ltb max_bits m)
              (λ big. let wide = pow_27 m (ground (arith, big)) in omega arith)
              (λ fine. (
                fresh-Sound (2 ^ m) (2 ^ m) false (omega arith) (omega arith) (λ e. absurd cc),
                inr (
                  0,
                  (
                    refl,
                    (λ i from to. absurd (omega arith)),
                    omega (arith, used-fresh K V (2 ^ m)),
                  ),
                  omega arith,
                ),
                get-fresh (2 ^ m) (2 ^ m) false,
              ))))

module _ {K : Type 0} (V : Type 0) (keys : Keys K) (indices : Indices keys) where
  -- A table of a size without any value; the error is for more than 2 ^ 26 nodes.
  abbrev pub EmptyTable : ℕ → ℕ → Outcome (Table K V) → Type 0
  EmptyTable narray nhash (done t) =
      SoundTable keys indices t
      × (length t.array ≡ narray)
      × Fits keys t.hash nhash
      × ((l : K) → get keys indices t l ≡ none)
  EmptyTable narray nhash table_overflow = 2 ^ 26 < nhash
  EmptyTable narray nhash no_free_place = ⊥

  -- `luaH_new` of an `int` size gives a table in which no key has a value, with an array part of that
  -- size and room for as many keys in the hash part as it is told; it fails only for more than 2 ^ 26
  -- of those.
  pub table_new-EmptyTable :
      (narray nhash : ℕ) → narray < 2 ^ 31 → EmptyTable narray nhash (table_new narray nhash)
  unfolding table_new get
  table_new-EmptyTable narray nhash less =
      go (setnodevector nhash) (setnodevector-Fresh V keys nhash)
    where
      go :
          (o : Outcome (HashPart K V))
          → Fresh V keys nhash o
          → EmptyTable narray nhash
              (and_then (λ h. done (record { array = replicate narray none; hash = h })) o)
      go table_overflow many = many
      go no_free_place bad = bad
      go (done h) (h_sound, fits, bare) =
          let nil : Option V = none in
          let size = length-replicate narray nil in
          (
            record { sound = h_sound; array-lt = omega arith; apart = λ l at. bare l },
            size,
            fits,
            λ l.
                if_both (λ o. o ≡ none)
                  (in_array (length (replicate narray nil)) (indices.arrayindex l))
                  (element-replicate narray (indices.arrayindex l)) (bare l),
          )
