-- ===== src/Upvalues.antt =====
-- src/lfunc.c: the open upvalues of a thread (`luaF_findupval`, `luaF_close`) and the names of local
-- variables. The list `uvhead`, doubly linked in the source, is the list of its addresses. Of a mark
-- only whether it is dead is kept; the colours that `luaC_linkupval` sets do not show here.
pub mod Sharing
pub mod Closing
pub mod Locals
use lunacy.Base.{
  ℕ, suc, ◌+◌, ◌-◌, ◌<◌, ◌≡◌, Bool, true, false, List, [], ◌∷◌, Option, none, some, ltb, leb, ◌==◌,
  if◌then◌else◌, ◌&&◌,
}
use lunacy.Chunk.{LocVar, StringRef}

-- An open upvalue: `level` is the stack slot that `v` points at.
pub record UpVal : Type 0 where
  pub address : ℕ
  pub level : ℕ
  pub dead : Bool

-- A closed one holds its value.
pub record ClosedUpVal (V : Type 0) : Type 0 where
  pub address : ℕ
  pub value : V

pub record UpvalState (V : Type 0) : Type 0 where
  pub openupval : List UpVal
  pub uvhead : List ℕ
  pub rootgc : List (ClosedUpVal V)
  pub freed : List ℕ
  pub next_address : ℕ

-- What the search gives: the upvalue, whether it is new, and the open list.
pub record Located : Type 0 where
  pub uv : UpVal
  pub created : Bool
  pub openupval : List UpVal

abbrev pub alive : UpVal → UpVal
alive p = record p { dead = false }

unfoldable pub locate : ℕ → ℕ → List UpVal → Located
locate address level [] =
    let uv : UpVal = record { address = address; level = level; dead = false } in
    record { uv = uv; created = true; openupval = uv ∷ [] }
locate address level (p ∷ next) =
    let uv : UpVal = record { address = address; level = level; dead = false } in
    let rest = locate address level next in
    if leb level p.level
    then (if p.level == level
        then record { uv = alive p; created = false; openupval = alive p ∷ next }
        else record rest { openupval = p ∷ rest.openupval })
    else record { uv = uv; created = true; openupval = uv ∷ p ∷ next }

unfoldable pub unlinkupval : ℕ → List ℕ → List ℕ
unlinkupval a [] = []
unlinkupval a (x ∷ xs) = let rest = unlinkupval a xs in if x == a then xs else x ∷ rest

module _ {V : Type 0} where
  -- `luaF_findupval`
  unfoldable pub findupval : ℕ → UpvalState V → UpVal × UpvalState V
  findupval level st =
      let r = locate st.next_address level st.openupval in
      (
        r.uv,
        if r.created
            then record st {
              openupval = r.openupval;
              uvhead = st.next_address ∷ st.uvhead;
              next_address = suc st.next_address;
            }
            else record st { openupval = r.openupval },
      )

  -- The body of the loop of `luaF_close`, for the first open upvalue.
  unfoldable pub close_one : (ℕ → V) → UpVal → UpvalState V → UpvalState V
  close_one stack uv st =
      if uv.dead
      then record st { uvhead = unlinkupval uv.address st.uvhead; freed = uv.address ∷ st.freed }
      else record st {
        uvhead = unlinkupval uv.address st.uvhead;
        rootgc = record { address = uv.address; value = stack uv.level } ∷ st.rootgc;
      }

  unfoldable pub close_loop : (ℕ → V) → ℕ → List UpVal → UpvalState V → UpvalState V
  close_loop stack level [] st = record st { openupval = [] }
  close_loop stack level (uv ∷ next) st =
      let rest = close_loop stack level next (close_one stack uv st) in
      if leb level uv.level then rest else record st { openupval = uv ∷ next }

  -- `luaF_close`
  unfoldable pub close : (ℕ → V) → ℕ → UpvalState V → UpvalState V
  close stack level st = close_loop stack level st.openupval st

-- `luaF_getlocalname`. A number below 1 has no name: it is never counted down to 0.
unfoldable pub getlocalname : List LocVar → ℕ → ℕ → Option StringRef
getlocalname [] local_number pc = none
getlocalname (v ∷ locvars) local_number pc =
    let left = if ltb pc v.endpc then local_number - 1 else local_number in
    let rest = getlocalname locvars left pc in
    if leb v.startpc pc
    then (if ltb pc v.endpc && local_number == 1 then some v.varname else rest)
    else none
