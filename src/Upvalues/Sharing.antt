-- ===== src/Upvalues/Sharing.antt =====
-- `luaF_findupval` (src/lfunc.c) on the list of the open upvalues.
use lunacy.Base.{
  ℕ, ◌<◌, ◌≤◌, ◌≡◌, refl, sym, ap, true, false, List, [], ◌∷◌, Option, none, some, ◌⊎◌, inl, inr,
  leb, ◌==◌, ==_iff, if◌then◌else◌, Bool-cases, arith,
}
use lunacy.Upvalues.{UpVal, UpvalState, Located, locate, findupval}

-- The levels go strictly down.
abbrev pub Below : ℕ → List UpVal → Type 0
Below bound [] = Unit
Below bound (p ∷ next) = (p.level < bound) × Below p.level next

-- The address of the open upvalue of a slot.
abbrev pub open_at : ℕ → List UpVal → Option ℕ
open_at level [] = none
open_at level (p ∷ next) =
    let rest = open_at level next in if p.level == level then some p.address else rest

open_at-Below :
    (level bound : ℕ) (l : List UpVal) → Below bound l → bound ≤ level → open_at level l ≡ none
open_at-Below level bound [] h le = refl
open_at-Below level bound (p ∷ next) (lt, h) le =
    let rest = open_at-Below level p.level next h (omega arith) in ground (arith, rest)

-- The upvalue that the search gives is that of its slot and not dead. The order of the levels and the
-- upvalues of the other slots stay. It is the one that was there, or a new one with the given address.
pub record IsLocated (address level bound : ℕ) (l : List UpVal) (r : Located) : Type 0 where
  pub sorted : Below bound r.openupval
  pub level_of : r.uv.level ≡ level
  pub living : r.uv.dead ≡ false
  pub here : open_at level r.openupval ≡ some r.uv.address
  pub others : (k : ℕ) → (k ≡ level) ⊎ (open_at k r.openupval ≡ open_at k l)
  pub before :
      ((r.created ≡ false) × (open_at level l ≡ some r.uv.address))
      ⊎ ((r.created ≡ true) × (open_at level l ≡ none) × (r.uv.address ≡ address))

locate-IsLocated :
    (address level bound : ℕ) (l : List UpVal)
    → Below bound l
    → level < bound
    → IsLocated address level bound l (locate address level l)
unfolding locate
locate-IsLocated address level bound [] h lt = record {
  sorted = (lt, tt);
  level_of = refl;
  living = refl;
  here = ground arith;
  others = λ k. elim (Bool-cases (level == k)) [
    | inl e ↦ inl (sym ((==_iff level k).0 e))
    | inr e ↦ inr (rw e)
  ];
  before = inr (refl, refl, refl);
}
locate-IsLocated address level bound (p ∷ next) (lt, h) lt' =
    elim (Bool-cases (leb level p.level)) [
      | inr e ↦
          let less : p.level < level = ground (arith, e) in
          rw e (record {
            sorted = (lt', (less, h));
            level_of = refl;
            living = refl;
            here = ground arith;
            others = λ k. elim (Bool-cases (level == k)) [
              | inl q ↦ inl (sym ((==_iff level k).0 q))
              | inr q ↦ inr (rw q)
            ];
            before = inr (refl, open_at-Below level level (p ∷ next) (less, h) (omega arith), refl);
          })
      | inl e ↦ elim (Bool-cases (p.level == level)) [
        | inl q ↦
            rw (e, q)
              (record {
                sorted = (lt, h);
                level_of = (==_iff p.level level).0 q;
                living = refl;
                here = rw q;
                others = λ k. inr refl;
                before = inl (refl, rw q);
              })
        | inr q ↦
            let i = locate-IsLocated address level p.level next h (ground (arith, e, q)) in
            rw (e, q)
              (record {
                sorted = (lt, i.sorted);
                level_of = i.level_of;
                living = i.living;
                here = rw q i.here;
                others = λ k. elim (i.others k) [ inl s ↦ inl s | inr s ↦ inr (rw s) ];
                before = elim (i.before) [
                  | inl b ↦ inl (b.0, rw q b.1)
                  | inr b ↦ inr (b.0, rw q b.1, b.2)
                ];
              })
      ]
    ]

-- `uv` and `st'` are what a search for `level` in `st` gives: the open list stays in order, `uv` is
-- alive and the upvalue of its slot from now on, the other slots keep theirs. There was one and it
-- is `uv`, or there was none and `uv` is at the next address and in front of `uvhead`.
pub record Shares {V : Type 0} (level bound : ℕ) (st : UpvalState V) (uv : UpVal)
    (st' : UpvalState V) : Type 0 where
  pub sorted : Below bound st'.openupval
  pub level_of : uv.level ≡ level
  pub living : uv.dead ≡ false
  pub here : open_at level st'.openupval ≡ some uv.address
  pub others : (k : ℕ) → (k ≡ level) ⊎ (open_at k st'.openupval ≡ open_at k st.openupval)
  pub before :
      ((open_at level st.openupval ≡ some uv.address) × (st'.uvhead ≡ st.uvhead))
      ⊎ ((open_at level st.openupval ≡ none)
          × (uv.address ≡ st.next_address)
          × (st'.uvhead ≡ uv.address ∷ st.uvhead))

-- When the open upvalues are in strictly falling order of their slots, all below a bound, a search
-- for a slot below the bound gives the one upvalue of that slot: the order stays, the upvalue is
-- alive and is the one found for the slot from now on, the other slots keep theirs, and it is the
-- one that was there, or, when there was none, a new one, which is also put in front of `uvhead`.
pub findupval-Shares :
    {V : Type 0} (level bound : ℕ) (st : UpvalState V)
    → Below bound st.openupval
    → level < bound
    → Shares level bound st (findupval level st).0 (findupval level st).1
unfolding findupval
findupval-Shares level bound st h lt =
    let i = locate-IsLocated st.next_address level bound st.openupval h lt in
    elim (i.before) [
      | inl b ↦ rw (b.0) (record {
        sorted = i.sorted;
        level_of = i.level_of;
        living = i.living;
        here = i.here;
        others = i.others;
        before = inl (b.1, refl);
      })
      | inr b ↦ rw (b.0) (record {
        sorted = i.sorted;
        level_of = i.level_of;
        living = i.living;
        here = i.here;
        others = i.others;
        before = inr (b.1, b.2, ap (λ a. a ∷ st.uvhead) (sym b.2));
      })
    ]
