-- ===== src/Chunk/Checked.antt =====
-- The bytecode check in src/lundump.c: what holds of the functions that are loaded.
use mathlib.Core.Path.{subst}
use lunacy.Base.{ℕ, zero, suc, ◌≡◌, refl, Bool, true, false}
use lunacy.Stream.{Zio}
use lunacy.Chunk.{StringRef, Fields, Proto, Protos, proto, no_protos, one_more}
use lunacy.Chunk.Load.{
  Result, ok, error, Load, LoadError, ◌>>=◌, ret, require, repeat_protos, load_function,
  load_header, load_debug, load_string, load_int, load_char, load_vector, repeat, load_constant,
  undump, or_parent, bad_code, unknown_source,
}

-- A predicate on every function of a tree.
mutual
  pub data Every (P : Proto → Type 0) : Proto → Type 0 where
    every : {f : Fields} {fs : Protos} → P (proto f fs) → EveryOf P fs → Every P (proto f fs)

  pub data EveryOf (P : Proto → Type 0) : Protos → Type 0 where
    no_more : EveryOf P no_protos
    another : {f : Proto} {fs : Protos} → Every P f → EveryOf P fs → EveryOf P (one_more f fs)

-- What a run that succeeds returns.
record Returns {A : Type 0} (Q : A → Type 0) (m : Load A) : Type 0 where
  at : (z z' : Zio) (v : A) → m z ≡ ok v z' → Q v

Returns-ret : {A : Type 0} (Q : A → Type 0) (a : A) → Q a → Returns Q (ret a)
Returns-ret Q a q = record { at = λ z z' v h. (let same : a ≡ v = cc in subst Q same q) }

Returns-require :
    {A : Type 0} (Q : A → Type 0) (c : Bool) (e : LoadError) (a : A)
    → (c ≡ true → Q a)
    → Returns Q (require c e a)
Returns-require Q true e a q = record {
  at = λ z z' v h. (let same : a ≡ v = cc in subst Q same (q refl));
}
Returns-require Q false e a q = record { at = λ z z' v h. absurd cc }

-- A sequence, with what the first step returns, ...
Returns-bind :
    {A B : Type 0} (P : A → Type 0) (Q : B → Type 0) (m : Load A) (k : A → Load B)
    → Returns P m
    → ((a : A) → P a → Returns Q (k a))
    → Returns Q (m >>= k)
Returns-bind {A} {B} P Q m k p q = record { at = λ z z' v h. go z z' v h (m z) refl }
  where
    go : (z z' : Zio) (v : B) → (m >>= k) z ≡ ok v z' → (r : Result A) → m z ≡ r → Q v
    go z z' v h (ok a z1) e = (q a (p.at z z1 a e)).at z1 z' v (rw e at h)
    go z z' v h (error e') e = let stuck = rw e at h in absurd cc

-- ... or whatever it returns.
Returns-then :
    {A B : Type 0} (Q : B → Type 0) (m : Load A) (k : A → Load B)
    → ((a : A) → Returns Q (k a))
    → Returns Q (m >>= k)
Returns-then Q m k q = Returns-bind (λ a. Unit) Q m k (record { at = λ z z' v h. tt }) (λ a u. q a)

module _ (check : Proto → Bool) where
  abbrev Passes : Proto → Type 0
  Passes f = check f ≡ true

  protos-Returns :
      (n : ℕ) (m : Load Proto)
      → Returns (Every Passes) m
      → Returns (EveryOf Passes) (repeat_protos n m)
  unfolding repeat_protos
  protos-Returns zero m h = Returns-ret _ no_protos no_more
  protos-Returns (suc n) m h = Returns-bind _ _ m _ h (λ f pf.
      Returns-bind _ _ (repeat_protos n m) _ (protos-Returns n m h)
        (λ fs pfs. Returns-ret _ (one_more f fs) (another pf pfs)))

  function-Returns :
      (left : ℕ) (p : StringRef) → Returns (Every Passes) (load_function check left p)
  unfolding load_function
  function-Returns zero p = record { at = λ z z' v h. absurd cc }
  function-Returns (suc left) p =
      let Q = Every Passes in
      Returns-then Q load_string _ (λ own. Returns-then Q load_int _ (λ linedefined.
        Returns-then Q load_int _ (λ lastlinedefined. Returns-then Q load_char _ (λ nups.
          Returns-then Q load_char _ (λ numparams. Returns-then Q load_char _ (λ is_vararg.
            Returns-then Q load_char _ (λ maxstacksize. Returns-then Q (load_vector 4) _ (λ code.
              Returns-then Q load_int _ (λ sizek.
                Returns-then Q (repeat sizek load_constant) _ (λ k.
                  Returns-then Q load_int _ (λ sizep.
                    Returns-bind (EveryOf Passes) Q
                      (repeat_protos sizep (load_function check left (or_parent own p))) _
                      (protos-Returns sizep _ (function-Returns left (or_parent own p)))
                      (λ fs inner. Returns-then Q load_debug _ (λ debug.
                        Returns-require Q _ bad_code _ (λ pass. every pass inner))))))))))))))

  -- Every function of a chunk that loads, nested ones too, has passed the bytecode check.
  pub undump-Every :
      (left : ℕ) (z z' : Zio) (f : Proto)
      → undump check left z ≡ ok f z'
      → Every (λ g. check g ≡ true) f
  unfolding undump
  undump-Every left z z' f h =
      (Returns-then (Every Passes) load_header _ (λ u. function-Returns left unknown_source)).at z
        z' f h
