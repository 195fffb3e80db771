-- ===== src/Tests/Upvalues.antt =====
-- Open upvalues of three slots (src/lfunc.c), and two local variables.
use lunacy.Base.{ℕ, suc, ◌≡◌, refl, true, false, List, [], ◌∷◌, some, inl, inr, arith, get_elem?}
use lunacy.Chunk.{LocVar}
use lunacy.Upvalues.{UpvalState, findupval, close, getlocalname, close_loop, close_one, unlinkupval}
use lunacy.Upvalues.Locals.{active, getlocalname_lem}
use lunacy.Upvalues.Sharing.{Shares, findupval-Shares}
use lunacy.Upvalues.Closing.{keep, value_of, close-keep, close-value_of}

abbrev three_open : UpvalState ℕ
three_open = record {
  openupval =
      record { address = 12; level = 9; dead = false }
      ∷ record { address = 11; level = 5; dead = true }
      ∷ record { address = 10; level = 2; dead = false }
      ∷ [];
  uvhead = 12 ∷ 11 ∷ 10 ∷ [];
  rootgc = [];
  freed = [];
  next_address = 13;
}

abbrev stack : ℕ → ℕ
stack level = suc level

findupval-Shares_example :
    Shares 5 10 three_open (findupval 5 three_open).0 (findupval 5 three_open).1
findupval-Shares_example = findupval-Shares 5 10 three_open (omega arith) (omega arith)

close-keep_example : (close stack 5 three_open).openupval ≡ keep 5 three_open.openupval
close-keep_example = close-keep stack 5 10 three_open (omega arith)

close-value_of_example : value_of stack 12 (close stack 5 three_open) ≡ value_of stack 12 three_open
close-value_of_example =
    close-value_of stack 5 12 three_open
      (refl, (omega arith, (omega arith, tt)), (refl, (omega arith, tt), (refl, tt, tt)))
      (inl refl, (inr (omega arith), (inl refl, tt)))

closed_five : (close stack 5 three_open).uvhead ≡ 10 ∷ []
unfolding close close_loop close_one unlinkupval
closed_five = refl

abbrev locvars : List LocVar
locvars =
    record { varname = some (b'i' ∷ []); startpc = 0; endpc = 4 }
    ∷ record { varname = some (b'j' ∷ []); startpc = 2; endpc = 9 }
    ∷ []

getlocalname_lem_example : getlocalname locvars 1 5 ≡ get_elem? (active locvars 5) 0
getlocalname_lem_example = getlocalname_lem locvars 0 5
