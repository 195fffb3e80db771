-- ===== src/Upvalues/Closing.antt =====
-- `luaF_close` (src/lfunc.c): the open list, and what closures read.
use mathlib.Core.Path.{subst}
use lunacy.Base.{
  ℕ, ◌≤◌, ◌≡◌, ◌≢◌, refl, ◌∙◌, true, false, List, [], ◌∷◌, Option, none, some, ◌⊎◌, inl, inr, ltb,
  leb, ◌==◌, ==_iff, if◌then◌else◌, Bool-cases, if_both, All, arith,
}
use lunacy.Upvalues.{UpVal, ClosedUpVal, UpvalState, close_one, close_loop, close}
use lunacy.Upvalues.Sharing.{Below}

-- The upvalues of the slots below `level`.
abbrev pub keep : ℕ → List UpVal → List UpVal
keep level [] = []
keep level (p ∷ next) = let rest = keep level next in if ltb p.level level then p ∷ rest else rest

keep-Below : (level bound : ℕ) (l : List UpVal) → Below bound l → bound ≤ level → keep level l ≡ l
keep-Below level bound [] h le = refl
keep-Below level bound (p ∷ next) (lt, h) le =
    let yes : ltb p.level level ≡ true = ground arith in
    rw (yes, keep-Below level p.level next h (omega arith))

-- No upvalue with the address is dead.
abbrev pub Living : ℕ → List UpVal → Type 0
Living a = All (λ (u : UpVal). (u.dead ≡ false) ⊎ (u.address ≢ a))

module _ {V : Type 0} where
  -- What a closure reads through the upvalue with an address: the value of a closed one, the slot
  -- of an open one.
  abbrev pub closed_value : ℕ → List (ClosedUpVal V) → Option V
  closed_value a [] = none
  closed_value a (c ∷ root) =
      let rest = closed_value a root in if c.address == a then some c.value else rest

  abbrev pub open_value : (ℕ → V) → ℕ → List UpVal → Option V
  open_value stack a [] = none
  open_value stack a (p ∷ next) =
      let rest = open_value stack a next in if p.address == a then some (stack p.level) else rest

  abbrev pub or_open : Option V → Option V → Option V
  or_open none o = o
  or_open (some v) o = some v

  abbrev pub value_of : (ℕ → V) → ℕ → UpvalState V → Option V
  value_of stack a st = or_open (closed_value a st.rootgc) (open_value stack a st.openupval)

  -- The open upvalues have addresses of their own, which no closed one has.
  abbrev pub Apart : List (ClosedUpVal V) → List UpVal → Type 0
  Apart root [] = Unit
  Apart root (p ∷ next) =
      (closed_value p.address root ≡ none)
      × All (λ (q : UpVal). p.address ≢ q.address) next
      × Apart root next

  Apart-close :
      (c : ClosedUpVal V) (root : List (ClosedUpVal V)) (l : List UpVal)
      → All (λ (q : UpVal). c.address ≢ q.address) l
      → Apart root l
      → Apart (c ∷ root) l
  Apart-close c root [] h apart = tt
  Apart-close c root (p ∷ next) (ne, h) (new, other, apart) =
      let differs : (c.address == p.address) ≡ false = ground (arith, ne) in
      (rw differs new, other, Apart-close c root next h apart)

  Apart-close_one :
      (stack : ℕ → V) (uv : UpVal) (next : List UpVal) (st : UpvalState V)
      → Apart st.rootgc (uv ∷ next)
      → Apart (close_one stack uv st).rootgc next
  unfolding close_one
  Apart-close_one stack uv next st (new, other, apart) =
      let c : ClosedUpVal V = record { address = uv.address; value = stack uv.level } in
      if_both (λ (r : UpvalState V). Apart r.rootgc next) uv.dead apart
        (Apart-close c st.rootgc next other apart)

  value-close_one :
      (stack : ℕ → V) (a : ℕ) (uv : UpVal) (next : List UpVal) (st : UpvalState V)
      → closed_value uv.address st.rootgc ≡ none
      → (uv.dead ≡ false) ⊎ (uv.address ≢ a)
      → or_open (closed_value a (close_one stack uv st).rootgc) (open_value stack a next)
        ≡ or_open (closed_value a st.rootgc) (open_value stack a (uv ∷ next))
  unfolding close_one
  value-close_one stack a uv next st new live = elim (Bool-cases (uv.address == a)) [
    | inl e ↦
        let same : uv.address ≡ a = (==_iff uv.address a).0 e in
        let absent : closed_value a st.rootgc ≡ none =
          subst (λ x. closed_value x st.rootgc ≡ none) same new in
        elim live [ inr ne ↦ absurd (ne same) | inl alive ↦ simp (alive, e, absent) ]
    | inr e ↦ elim (Bool-cases uv.dead) [ inl dead ↦ simp (dead, e) | inr alive ↦ simp (alive, e) ]
  ]

  value-close_loop :
      (stack : ℕ → V) (level a : ℕ) (l : List UpVal) (st : UpvalState V)
      → Apart st.rootgc l
      → Living a l
      → value_of stack a (close_loop stack level l st)
        ≡ or_open (closed_value a st.rootgc) (open_value stack a l)
  unfolding close_loop
  value-close_loop stack level a [] st apart living = refl
  value-close_loop stack level a (uv ∷ next) st apart (live, living) =
      elim (Bool-cases (leb level uv.level)) [
        | inr e ↦ rw e
        | inl e ↦
            let st' = close_one stack uv st in
            rw e (
              value-close_loop stack level a next st' (Apart-close_one stack uv next st apart)
                living
              ∙ value-close_one stack a uv next st apart.0 live)
      ]

  open-close_loop :
      (stack : ℕ → V) (level bound : ℕ) (l : List UpVal) (st : UpvalState V)
      → Below bound l
      → (close_loop stack level l st).openupval ≡ keep level l
  unfolding close_loop
  open-close_loop stack level bound [] st h = refl
  open-close_loop stack level bound (uv ∷ next) st (lt, h) =
      elim (Bool-cases (leb level uv.level)) [
        | inl e ↦
            let no_longer : ltb uv.level level ≡ false = ground (arith, e) in
            rw (e, no_longer) (open-close_loop stack level uv.level next (close_one stack uv st) h)
        | inr e ↦
            let stays : ltb uv.level level ≡ true = ground (arith, e) in
            let less : uv.level ≤ level = ground (arith, e) in
            rw (e, stays, keep-Below level uv.level next h less)
      ]

  -- When the open upvalues are in strictly falling order of their slots, closing from a level on
  -- leaves exactly those of the slots below the level, in their order.
  pub close-keep :
      (stack : ℕ → V) (level bound : ℕ) (st : UpvalState V)
      → Below bound st.openupval
      → (close stack level st).openupval ≡ keep level st.openupval
  unfolding close
  close-keep stack level bound st h = open-close_loop stack level bound st.openupval st h

  -- When the open upvalues have addresses of their own, which no closed one has, and none with the
  -- address `a` is dead, closing does not change what is read through the upvalue at `a`.
  pub close-value_of :
      (stack : ℕ → V) (level a : ℕ) (st : UpvalState V)
      → Apart st.rootgc st.openupval
      → Living a st.openupval
      → value_of stack a (close stack level st) ≡ value_of stack a st
  unfolding close
  close-value_of stack level a st apart living =
      value-close_loop stack level a st.openupval st apart living
