-- ===== src/Tables/Resize.antt =====
-- `resize` (src/ltable.c).
use lunacy.Base.{
  ℕ, suc, ◌+◌, ◌-◌, ◌^◌, ◌≤◌, ◌<◌, ◌≡◌, refl, sym, ap, ◌∙◌, ◌⊎◌, inl, inr, Bool, true, false, List,
  ◌++◌, Option, none, some, Bool-cases, length, drop, replicate, length-take, length-drop,
  length-append, length-replicate, arith,
}
use lunacy.Tables.{element}
use lunacy.Tables.Hash.{Keys, Nodes, HashPart, find, search, val_at}
use lunacy.Tables.Hash
use lunacy.Tables.Hash.Newkey.{Sound}
use lunacy.Tables.Access.{
  Indices, Table, Outcome, done, table_overflow, no_free_place, in_array, get, and_then, reinsert,
  setnodevector, slice_entries, resized_array, entries, resize,
}
use lunacy.Tables.Entries.{over, over-append, over-slice_entries, over-node_entries}
use lunacy.Tables.Elements.{
  or_else, element-take, element-append, element-drop, element-past, element_zero,
}
use lunacy.Tables.Fresh.{Fresh, setnodevector-Fresh}
use lunacy.Tables.Reinsert.{
  inside, SoundTable, spilled, Fits, Reinserted, reinsert-Reinserted, get-inside, get-outside,
}

fewer-Fits :
    {K V : Type 0} (keys : Keys K) (h : HashPart K V) (m n : ℕ)
    → m ≤ n
    → Fits keys h n
    → Fits keys h m
fewer-Fits keys h m n le (inl e) = inl (omega arith)
fewer-Fits keys h m n le (inr (u, roomy, room)) = inr (u, roomy, omega arith)

length-resized : {V : Type 0} (array : List (Option V)) (n : ℕ) → length (resized_array array n) ≡ n
length-resized {V} array n =
    let filler : List (Option V) = replicate (n - length array) none in
    let nil : Option V = none in
    omega (
      arith,
      length-take n (array ++ filler),
      length-append array filler,
      length-replicate (n - length array) nil,
    )

element-resized :
    {V : Type 0} (array : List (Option V)) (n j : ℕ)
    → j ≤ n
    → element (resized_array array n) j ≡ element array j
element-resized array n j le =
    element-take n (array ++ replicate (n - length array) none) j le
    ∙ element-append array (n - length array) j

or_else-none : {V : Type 0} (o : Option V) → or_else o none ≡ o
or_else-none none = refl
or_else-none (some v) = refl

≤-cases : (a n : ℕ) → (a ≤ n) ⊎ (n < a)
≤-cases a n = ground arith

module _ {K V : Type 0} (keys : Keys K) (indices : Indices keys) where
  -- `resize` keeps the value of every key and has room for more; its error is for more than 2 ^ 26
  -- nodes.
  abbrev pub Resized : Table K V → ℕ → ℕ → ℕ → Outcome (Table K V) → Type 0
  Resized t nasize nhsize extra (done t') =
      SoundTable keys indices t'
      × (length t'.array ≡ nasize)
      × Fits keys t'.hash extra
      × ((l : K) → get keys indices t' l ≡ get keys indices t l)
  Resized t nasize nhsize extra table_overflow = 2 ^ 26 < nhsize
  Resized t nasize nhsize extra no_free_place = ⊥

  module _ (t : Table K V) (nasize : ℕ) (h : HashPart K V)
      (bare : (l : K) → Hash.get keys h l ≡ none) where
    abbrev start : Table K V
    start = record { array = resized_array t.array nasize; hash = h }

    inside-start :
        (l : K) (b : Bool)
        → in_array nasize (indices.arrayindex l) ≡ b
        → inside keys indices (length start.array) l ≡ b
    inside-start l b e = ap (λ n. inside keys indices n l) (length-resized t.array nasize) ∙ e

    -- The array part, as the new one and the vanishing slice.
    slice-start :
        (l : K)
        → or_else
            (element (drop nasize t.array) (suc (indices.arrayindex l) - suc nasize))
            (get keys indices start l)
          ≡ element t.array (indices.arrayindex l)
    slice-start l =
        let a = indices.arrayindex l in
        elim (≤-cases a nasize) [
          | inl le ↦
              let z : suc a - suc nasize ≡ 0 = omega arith in
              ap (λ j. or_else (element (drop nasize t.array) j) (get keys indices start l)) z
              ∙ (ap (λ o. or_else o (get keys indices start l)) (element_zero (drop nasize t.array))
                  ∙ kept le)
          | inr less ↦
              let one : suc a - suc nasize ≡ suc (a - suc nasize) = omega arith in
              let back : nasize + suc (a - suc nasize) ≡ a = omega arith in
              ap (λ j. or_else (element (drop nasize t.array) j) (get keys indices start l)) one
              ∙ (ap (or_else (element (drop nasize t.array) (suc (a - suc nasize))))
                    (spilled_key less)
                  ∙ (or_else-none _
                      ∙ (element-drop nasize t.array (a - suc nasize) ∙ ap (element t.array) back)))
        ]
      where
        kept :
            indices.arrayindex l ≤ nasize
            → get keys indices start l ≡ element t.array (indices.arrayindex l)
        kept le = elim (Bool-cases (in_array nasize (indices.arrayindex l))) [
          | inl e ↦
              get-inside keys indices start l (inside-start l true e)
              ∙ element-resized t.array nasize (indices.arrayindex l) le
          | inr e ↦
              let z : indices.arrayindex l ≡ 0 = ground (arith, e) in
              (get-outside keys indices start l (inside-start l false e) ∙ bare l)
              ∙ sym (ap (element t.array) z ∙ element_zero t.array)
        ]

        spilled_key : nasize < indices.arrayindex l → get keys indices start l ≡ none
        spilled_key less =
            get-outside keys indices start l (inside-start l false (ground arith)) ∙ bare l

    start-Sound :
        SoundTable keys indices t → nasize < 2 ^ 31 → Sound keys h → SoundTable keys indices start
    start-Sound sound less h_sound = record {
      sound = h_sound;
      array-lt = omega (arith, length-resized t.array nasize);
      apart = λ l at. bare l;
    }

    both_parts :
        (l : K)
        → SoundTable keys indices t
        → or_else (Hash.get keys t.hash l) (element t.array (indices.arrayindex l))
          ≡ get keys indices t l
    both_parts l sound = elim (Bool-cases (inside keys indices (length t.array) l)) [
      | inl e ↦
          ap (λ o. or_else o (element t.array (indices.arrayindex l))) (sound.apart l e)
          ∙ sym (get-inside keys indices t l e)
      | inr e ↦
          (ap (or_else (Hash.get keys t.hash l)) (no_element e) ∙ or_else-none _)
          ∙ sym (get-outside keys indices t l e)
    ]
      where
        no_element :
            inside keys indices (length t.array) l ≡ false
            → element t.array (indices.arrayindex l) ≡ none
        no_element e = elim (≤-cases (indices.arrayindex l) 0) [
          | inl z ↦
              let z' : indices.arrayindex l ≡ 0 = omega arith in
              ap (element t.array) z' ∙ element_zero t.array
          | inr later ↦ element-past t.array (indices.arrayindex l) (ground arith)
        ]

    -- The vanishing slice and the old hash part, over the new array part.
    over-entries :
        (l : K)
        → SoundTable keys indices t
        → nasize < 2 ^ 31
        → over keys (entries keys indices t nasize) (get keys indices start) l
          ≡ get keys indices t l
    unfolding entries
    over-entries l sound less =
        let slice = slice_entries indices.of_index (suc nasize) (drop nasize t.array) in
        over-append keys slice _ (get keys indices start) l
        ∙ (over-node_entries keys t.hash (λ m. over keys slice (get keys indices start) m) l
              sound.sound
            ∙ (ap (or_else (Hash.get keys t.hash l)) (
                  over-slice_entries keys indices (suc nasize) (drop nasize t.array)
                    (get keys indices start) l (omega arith)
                    (omega (arith, length-drop nasize t.array, sound.array-lt))
                  ∙ slice-start l)
                ∙ both_parts l sound))

  -- `resize` of a sound table to an `int` size of the array part, with enough nodes for the keys that do
  -- not fit there and for some more, keeps the value of every key, whichever part it moves to, and has
  -- room for the others; it fails only for more than 2 ^ 26 nodes, and `newkey` never finds the new node
  -- array full.
  pub resize-Resized :
      (t : Table K V) (nasize nhsize extra : ℕ)
      → SoundTable keys indices t
      → nasize < 2 ^ 31
      → spilled keys indices nasize (entries keys indices t nasize) + extra ≤ nhsize
      → Resized t nasize nhsize extra (resize keys indices t nasize nhsize)
  unfolding resize
  resize-Resized t nasize nhsize extra sound less enough =
      go (setnodevector nhsize) (setnodevector-Fresh V keys nhsize)
    where
      go :
          (o : Outcome (HashPart K V))
          → Fresh V keys nhsize o
          → Resized t nasize nhsize extra (
              and_then
                (λ h.
                  reinsert keys indices
                    (entries keys indices t nasize)
                    (record { array = resized_array t.array nasize; hash = h }))
                o)
      go table_overflow many = many
      go no_free_place bad = bad
      go (done h) (h_sound, fits, bare) =
          let es = entries keys indices t nasize in
          let same = length-resized t.array nasize in
          let room : spilled keys indices (length (resized_array t.array nasize)) es + extra
              ≤ nhsize =
            rw same enough in
          finish (reinsert keys indices es (start t nasize h bare)) (
            reinsert-Reinserted keys indices es extra (start t nasize h bare)
              (start-Sound t nasize h bare sound less h_sound)
              (fewer-Fits keys h _ nhsize room fits))
        where
          finish :
              (o : Outcome (Table K V))
              → Reinserted keys indices
                  (start t nasize h bare)
                  (entries keys indices t nasize)
                  extra
                  o
              → Resized t nasize nhsize extra o
          finish table_overflow bad = absurd bad
          finish no_free_place bad = bad
          finish (done t') (t'_sound, same, more, value) = (
            t'_sound,
            same ∙ length-resized t.array nasize,
            more,
            λ l. value l ∙ over-entries t nasize h bare l sound less,
          )
