-- ===== src/Tables/Reinsert.antt =====
-- Assignments to a table with both parts, and those of `resize` (src/ltable.c).
use mathlib.Core.Path.{subst}
use lunacy.Base.{
  ℕ, suc, ◌+◌, ◌-◌, ◌^◌, ◌≤◌, ◌<◌, ◌≡◌, ◌≢◌, refl, sym, ap, ◌∙◌, ◌⊎◌, inl, inr, Bool, true, false,
  List, [], ◌∷◌, Option, none, some, ltb, leb, and_parts, if_cases, Bool-cases, if◌then◌else◌,
  length, set, length-set, arith,
}
use lunacy.Tables.{element}
use lunacy.Tables.Hash.{Keys, HashPart, put}
use lunacy.Tables.Hash
use lunacy.Tables.Hash.Newkey.{Sound}
use lunacy.Tables.Hash.Assign.{Assigned, put-Assigned}
use lunacy.Tables.Hash.Room.{Roomy, PutRoom, put-Roomy}
use lunacy.Tables.Access.{
  Indices, Table, Outcome, done, table_overflow, no_free_place, in_array, get, assign, with_hash,
  and_then, reinsert,
}
use lunacy.Tables.Entries.{over, over_ext}
use lunacy.Tables.Elements.{element-set_self, element-set_ne}

in_array_bounds : (n i : ℕ) → in_array n i ≡ true → (0 < i) × (i ≤ n)
in_array_bounds n i e = ground (arith, and_parts (ltb 0 i) (leb i n) e)

-- There is room for that many new keys.
abbrev pub Fits : {K V : Type 0} → Keys K → HashPart K V → ℕ → Type 0
Fits keys h n = (n ≡ 0) ⊎ ((u : ℕ) × Roomy keys h u × (u + n ≤ h.size))

module _ {K : Type 0} (keys : Keys K) (indices : Indices keys) where
  abbrev pub inside : ℕ → K → Bool
  inside sizearray k = in_array sizearray (indices.arrayindex k)

  same_inside : (n : ℕ) (k l : K) → keys.raw_equal l k ≡ true → inside n l ≡ inside n k
  same_inside n k l same = ap (in_array n) (indices.same_index l k same)

  -- Two keys of the array part that have one place are equal.
  one_place :
      (n : ℕ) (k l : K)
      → inside n k ≡ true
      → indices.arrayindex l ≡ indices.arrayindex k
      → keys.raw_equal l k ≡ true
  one_place n k l at e =
      let pos = (in_array_bounds n (indices.arrayindex k) at).0 in
      let of_k = indices.one_key k pos in
      let of_l = indices.one_key l (rw e pos) in
      let of_l' = ap (λ i. keys.raw_equal l (indices.of_index i)) (sym e) ∙ of_l in
      keys.raw_equal_trans l _ k of_l' (keys.raw_equal_sym k _ of_k)

module _ {K V : Type 0} (keys : Keys K) (indices : Indices keys) where
  -- What holds of a table between two operations: no key of the array part is in the hash part.
  pub record SoundTable (t : Table K V) : Type 0 where
    pub sound : Sound keys t.hash
    pub array-lt : length t.array < 2 ^ 31
    pub apart :
        (l : K) → inside keys indices (length t.array) l ≡ true → Hash.get keys t.hash l ≡ none

  -- The entries that go to the hash part.
  unfoldable pub spilled : ℕ → List (K × V) → ℕ
  spilled sizearray [] = 0
  spilled sizearray ((k, v) ∷ es) =
      let rest = spilled sizearray es in if inside keys indices sizearray k then rest else suc rest

  -- The key has the new value, and the others have the old ones.
  abbrev pub Stored : Table K V → K → Option V → Table K V → Type 0
  Stored t k v t' =
      SoundTable t'
      × (length t'.array ≡ length t.array)
      × ((l : K) → get keys indices t' l ≡ (if keys.raw_equal l k then v else get keys indices t l))

  abbrev pub StoredIf : Table K V → K → Option V → ℕ → Outcome (Table K V) → Type 0
  StoredIf t k v n (done t') = Stored t k v t' × Fits keys t'.hash n
  StoredIf t k v n table_overflow = ⊥
  StoredIf t k v n no_free_place = ⊥

  pub get-inside :
      (t : Table K V) (l : K)
      → inside keys indices (length t.array) l ≡ true
      → get keys indices t l ≡ element t.array (indices.arrayindex l)
  unfolding get
  get-inside t l at = rw at refl

  pub get-outside :
      (t : Table K V) (l : K)
      → inside keys indices (length t.array) l ≡ false
      → get keys indices t l ≡ Hash.get keys t.hash l
  unfolding get
  get-outside t l off = rw off refl

  abbrev stored : (t : Table K V) → K → Option V → Table K V
  stored t k v = record t { array = set t.array (indices.arrayindex k - 1) v }

  still_inside :
      (t : Table K V) (k l : K) (v : Option V) (b : Bool)
      → inside keys indices (length t.array) l ≡ b
      → inside keys indices (length (stored t k v).array) l ≡ b
  still_inside t k l v b h =
      ap (λ n. inside keys indices n l) (length-set t.array (indices.arrayindex k - 1) v) ∙ h

  -- In the array part, an equal key has the same place, and another key has another one.
  get-stored :
      (t : Table K V) (k : K) (v : Option V) (l : K)
      → inside keys indices (length t.array) k ≡ true
      → get keys indices (stored t k v) l ≡ (if keys.raw_equal l k then v else get keys indices t l)
  get-stored t k v l at =
      let (pos, le) = in_array_bounds (length t.array) (indices.arrayindex k) at in
      elim (Bool-cases (keys.raw_equal l k)) [
        | inl e ↦
            let l_at : inside keys indices (length t.array) l ≡ true =
              same_inside keys indices (length t.array) k l e ∙ at in
            let here : indices.arrayindex l ≡ suc (indices.arrayindex k - 1) =
              indices.same_index l k e ∙ omega arith in
            rw e (
              get-inside (stored t k v) l (still_inside t k l v true l_at)
              ∙ (ap (element (stored t k v).array) here
                  ∙ element-set_self t.array (indices.arrayindex k - 1) v (omega arith)))
        | inr e ↦ elim (Bool-cases (inside keys indices (length t.array) l)) [
          | inl l_at ↦
              let off : indices.arrayindex l ≢ suc (indices.arrayindex k - 1) = λ same.
                let bad = one_place keys indices (length t.array) k l at (same ∙ omega arith) in
                absurd cc in
              rw e (
                get-inside (stored t k v) l (still_inside t k l v true l_at)
                ∙ (element-set_ne t.array (indices.arrayindex k - 1) (indices.arrayindex l) v off
                    ∙ sym (get-inside t l l_at)))
          | inr l_off ↦ rw e (
              get-outside (stored t k v) l (still_inside t k l v false l_off)
              ∙ sym (get-outside t l l_off))
        ]
      ]

  get-put :
      (t : Table K V) (k : K) (v : Option V) (h : HashPart K V) (l : K)
      → inside keys indices (length t.array) k ≡ false
      → Assigned keys t.hash k v h
      → get keys indices (record t { hash = h }) l
        ≡ (if keys.raw_equal l k then v else get keys indices t l)
  get-put t k v h l off (sound', same, others) = elim (Bool-cases (keys.raw_equal l k)) [
    | inl e ↦
        let out : inside keys indices (length t.array) l ≡ false =
          same_inside keys indices (length t.array) k l e ∙ off in
        rw e (get-outside (record t { hash = h }) l out ∙ same l e)
    | inr e ↦ elim (Bool-cases (inside keys indices (length t.array) l)) [
      | inl at ↦ rw e (get-inside (record t { hash = h }) l at ∙ sym (get-inside t l at))
      | inr out ↦
          rw e
            (get-outside (record t { hash = h }) l out ∙ (others l e ∙ sym (get-outside t l out)))
    ]
  ]

  stored-Stored :
      (t : Table K V) (k : K) (v : Option V)
      → SoundTable t
      → inside keys indices (length t.array) k ≡ true
      → Stored t k v (stored t k v)
  stored-Stored t k v sound inner =
      let same = length-set t.array (indices.arrayindex k - 1) v in
      (
        record {
          sound = sound.sound;
          array-lt = rw same sound.array-lt;
          apart = λ l l_at. sound.apart l (sym (ap (λ m. inside keys indices m l) same) ∙ l_at);
        },
        same,
        λ l. get-stored t k v l inner,
      )

  put-Stored :
      (t : Table K V) (k : K) (v : Option V) (h : HashPart K V)
      → SoundTable t
      → inside keys indices (length t.array) k ≡ false
      → put keys t.hash k v ≡ some h
      → Stored t k v (record t { hash = h })
  put-Stored t k v h sound off e =
      let (sound', same, others) = put-Assigned keys t.hash k v h sound.sound e in
      (
        record {
          sound = sound';
          array-lt = sound.array-lt;
          apart = λ l at.
              let differ : keys.raw_equal l k ≡ false = elim (Bool-cases (keys.raw_equal l k)) [
                | inl e' ↦ let f = same_inside keys indices (length t.array) k l e' in absurd cc
                | inr e' ↦ e'
              ] in
              others l differ ∙ sound.apart l at;
        },
        refl,
        λ l. get-put t k v h l off (sound', same, others),
      )

  -- Whatever the room, an assignment that succeeds stores the value, and it fails only for want of a
  -- free place.
  abbrev pub Attempt : Table K V → K → Option V → Outcome (Table K V) → Type 0
  Attempt t k v (done t') = Stored t k v t'
  Attempt t k v table_overflow = ⊥
  Attempt t k v no_free_place = Unit

  pub assign-Attempt :
      (t : Table K V) (k : K) (v : Option V)
      → SoundTable t
      → Attempt t k v (assign keys indices t k v)
  unfolding assign
  assign-Attempt t k v sound =
      if_cases (Attempt t k v) (inside keys indices (length t.array) k) (stored-Stored t k v sound)
        (λ off. new_node off (put keys t.hash k v) refl)
    where
      new_node :
          inside keys indices (length t.array) k ≡ false
          → (o : Option (HashPart K V)) → put keys t.hash k v ≡ o
          → Attempt t k v (with_hash t o)
      new_node off none e = tt
      new_node off (some h) e = put-Stored t k v h sound off e

  pub assign-Stored :
      (t : Table K V) (k : K) (v : Option V) (n : ℕ)
      → SoundTable t
      → Fits keys t.hash (if inside keys indices (length t.array) k then n else suc n)
      → StoredIf t k v n (assign keys indices t k v)
  unfolding assign
  assign-Stored t k v n sound fits =
      if_cases (StoredIf t k v n) (inside keys indices (length t.array) k)
        (λ inner. (stored-Stored t k v sound inner, rw inner at fits))
        (λ off.
          let fits' : Fits keys t.hash (suc n) = rw off at fits in
          elim fits' [
            | inl nothing ↦ absurd (omega arith)
            | inr (u, roomy, le) ↦
                new_node u (put keys t.hash k v) off refl
                  (put-Roomy keys t.hash k v u sound.sound roomy (omega arith)) le
          ])
    where
      new_node :
          (u : ℕ) (o : Option (HashPart K V))
          → inside keys indices (length t.array) k ≡ false
          → put keys t.hash k v ≡ o
          → PutRoom keys t.hash.size (suc u) o
          → u + suc n ≤ t.hash.size
          → StoredIf t k v n (with_hash t o)
      new_node u none off e room le = room
      new_node u (some h) off e (roomy, same_size) le =
          (put-Stored t k v h sound off e, inr (suc u, roomy, omega arith))

  -- All the entries are stored, and there is room for some more keys.
  abbrev pub Reinserted : Table K V → List (K × V) → ℕ → Outcome (Table K V) → Type 0
  Reinserted t es extra (done t') =
      SoundTable t'
      × (length t'.array ≡ length t.array)
      × Fits keys t'.hash extra
      × ((l : K) → get keys indices t' l ≡ over keys es (get keys indices t) l)
  Reinserted t es extra table_overflow = ⊥
  Reinserted t es extra no_free_place = ⊥

  -- With room for the entries that go to the hash part, all the assignments succeed.
  pub reinsert-Reinserted :
      (es : List (K × V)) (extra : ℕ) (t : Table K V)
      → SoundTable t
      → Fits keys t.hash (spilled (length t.array) es + extra)
      → Reinserted t es extra (reinsert keys indices es t)
  unfolding reinsert spilled over
  reinsert-Reinserted [] extra t sound fits =
      let none_spilled : 0 + extra ≡ extra = omega arith in
      (sound, refl, rw none_spilled at fits, λ l. refl)
  reinsert-Reinserted ((k, v) ∷ es) extra t sound fits =
      go (assign keys indices t k (some v))
        (assign-Stored t k (some v) (spilled (length t.array) es + extra) sound
          (elim (Bool-cases (inside keys indices (length t.array) k)) [
            | inl e ↦ rw e (rw e at fits)
            | inr e ↦
                let more : suc (spilled (length t.array) es) + extra
                    ≡ suc (spilled (length t.array) es + extra) =
                  omega arith in
                let fits' : Fits keys t.hash (suc (spilled (length t.array) es) + extra) =
                  rw e at fits in
                rw e (subst (Fits keys t.hash) more fits')
          ]))
        (λ u. reinsert-Reinserted es extra u)
    where
      go :
          (o : Outcome (Table K V))
          → StoredIf t k (some v) (spilled (length t.array) es + extra) o
          → ((u : Table K V)
              → SoundTable u
              → Fits keys u.hash (spilled (length u.array) es + extra)
              → Reinserted u es extra (reinsert keys indices es u))
          → Reinserted t ((k, v) ∷ es) extra (and_then (reinsert keys indices es) o)
      go table_overflow h rest = h
      go no_free_place h rest = h
      go (done u) ((sound', same, stored'), fits') rest =
          finish (reinsert keys indices es u) (rest u sound' (rw same fits'))
        where
          finish :
              (o : Outcome (Table K V))
              → Reinserted u es extra o
              → Reinserted t ((k, v) ∷ es) extra o
          finish table_overflow h = h
          finish no_free_place h = h
          finish (done t') (sound'', same', more, result) =
              (sound'', same' ∙ same, more, λ l. result l ∙ over_ext keys es _ _ l stored')
