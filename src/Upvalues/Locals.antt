-- ===== src/Upvalues/Locals.antt =====
-- `luaF_getlocalname` (src/lfunc.c).
use lunacy.Base.{
  ℕ, suc, ◌-◌, ◌≡◌, refl, false, List, [], ◌∷◌, ltb, leb, if◌then◌else◌, ◌==◌, get_elem?,
  Bool-cases, inl, inr, zero, arith,
}
use lunacy.Chunk.{LocVar, StringRef}
use lunacy.Upvalues.{getlocalname}

-- The names of the variables that are active at `pc`, of those declared in the order of their start.
abbrev pub active : List LocVar → ℕ → List StringRef
active [] pc = []
active (v ∷ locvars) pc =
    let rest = active locvars pc in
    if leb v.startpc pc then (if ltb pc v.endpc then v.varname ∷ rest else rest) else []

-- The name of local variable `n + 1` at `pc` is element `n` of the names of the active variables:
-- those before the first one that starts behind `pc`, less those that have ended.
pub getlocalname_lem :
    (locvars : List LocVar) (n pc : ℕ)
    → getlocalname locvars (suc n) pc ≡ get_elem? (active locvars pc) n
unfolding getlocalname
getlocalname_lem [] n pc = refl
getlocalname_lem (v ∷ locvars) zero pc = elim (Bool-cases (leb v.startpc pc)) [
  | inr e ↦ rw e
  | inl e ↦ elim (Bool-cases (ltb pc v.endpc)) [
    | inr e' ↦ rw (e, e') (getlocalname_lem locvars zero pc)
    | inl e' ↦ rw (e, e')
  ]
]
getlocalname_lem (v ∷ locvars) (suc n) pc =
    let down : suc (suc n) - 1 ≡ suc n = omega arith in
    let other : (suc (suc n) == 1) ≡ false = ground arith in
    elim (Bool-cases (leb v.startpc pc)) [
      | inr e ↦ rw e
      | inl e ↦ elim (Bool-cases (ltb pc v.endpc)) [
        | inr e' ↦ rw (e, e') (getlocalname_lem locvars (suc n) pc)
        | inl e' ↦ rw (e, e', other, down) (getlocalname_lem locvars n pc)
      ]
    ]
