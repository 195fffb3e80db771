-- ===== src/Tables/Hash/Used.antt =====
-- The number of keys in the hash part (src/ltable.c), and the places that `getfreepos` passes by.
use lunacy.Base.{
  ℕ, zero, suc, ◌+◌, ◌≤◌, ◌<◌, ◌≡◌, ◌≢◌, refl, sym, ap, ◌∙◌, inl, inr, Bool, true, false, Option,
  none, some, ==-cases, Bool-cases, if_cases, if◌then◌else◌, arith,
}
use lunacy.Tables.{is_some}
use lunacy.Tables.Hash.{Nodes, getfreepos, set_key, set_val, chain_node, move_node}
use lunacy.Tables.Hash.Values.{update-here}

module _ {K V : Type 0} where
  abbrev pub keyed : Nodes K V → ℕ → Bool
  keyed node i = is_some (node i).key

  -- The number of keys.
  unfoldable pub used : Nodes K V → ℕ → ℕ
  used node zero = 0
  used node (suc size) = let rest = used node size in if keyed node size then suc rest else rest

  -- One node more has a key.
  abbrev pub Grown : Nodes K V → Nodes K V → ℕ → Type 0
  Grown node node' n = ((x : ℕ) → x ≢ n → keyed node' x ≡ keyed node x) × (keyed node' n ≡ true)

  used-same :
      (node node' : Nodes K V) (n size : ℕ)
      → Grown node node' n
      → size ≤ n
      → used node' size ≡ used node size
  unfolding used
  used-same node node' n zero g le = refl
  used-same node node' n (suc size) g le =
      let rest = used-same node node' n size g (omega arith) in
      let same = g.0 size (λ e. absurd (omega arith)) in rw (rest, same) refl

  pub used-Grown :
      (node node' : Nodes K V) (n size : ℕ)
      → Grown node node' n
      → used node' size ≤ used node size + 1
  unfolding used
  used-Grown node node' n zero g = omega arith
  used-Grown node node' n (suc size) g = elim (==-cases size n) [
    | inl here ↦ let rest = used-same node node' n size g (omega arith) in ground (arith, rest)
    | inr there ↦
        let rest = used-Grown node node' n size g in
        let same = g.0 size there in ground (arith, rest, same)
  ]

  -- With fewer keys than nodes, some node has none.
  pub bare_node :
      (node : Nodes K V) (size : ℕ)
      → used node size < size
      → (i : ℕ) × (i < size) × (keyed node i ≡ false)
  unfolding used
  bare_node node zero less = absurd (omega arith)
  bare_node node (suc size) less = elim (Bool-cases (keyed node size)) [
    | inl full ↦
        let fewer : suc (suc (used node size)) ≤ suc size = rw full at less in
        let (i, inside, bare) = bare_node node size (omega arith) in (i, omega arith, bare)
    | inr bare ↦ (size, omega arith, bare)
  ]

  abbrev pub FullFrom : Nodes K V → ℕ → ℕ → Type 0
  FullFrom node lo hi = (i : ℕ) → lo ≤ i → i < hi → keyed node i ≡ true

  -- `getfreepos` passes by nodes with keys, and fails only if there are no others.
  abbrev pub Passed : Nodes K V → ℕ → Option ℕ → Type 0
  Passed node lastfree none = FullFrom node 0 lastfree
  Passed node lastfree (some n) = FullFrom node (suc n) lastfree

  pub getfreepos-Passed :
      (node : Nodes K V) (lastfree : ℕ) → Passed node lastfree (getfreepos node lastfree)
  unfolding getfreepos
  getfreepos-Passed node zero = λ i from to. absurd (omega arith)
  getfreepos-Passed node (suc lastfree) =
      if_cases (Passed node (suc lastfree)) (keyed node lastfree)
        (λ full. more (getfreepos node lastfree) full (getfreepos-Passed node lastfree))
        (λ bare. λ i from to. absurd (omega arith))
    where
      more :
          (o : Option ℕ)
          → keyed node lastfree ≡ true
          → Passed node lastfree o
          → Passed node (suc lastfree) o
      more none full h = λ i from to. elim (==-cases i lastfree) [
        | inl here ↦ ap (keyed node) here ∙ full
        | inr there ↦ h i from (ground arith)
      ]
      more (some n) full h = λ i from to. elim (==-cases i lastfree) [
        | inl here ↦ ap (keyed node) here ∙ full
        | inr there ↦ h i from (ground arith)
      ]

  pub used-keyed :
      (node node' : Nodes K V) (size : ℕ)
      → ((x : ℕ) → keyed node' x ≡ keyed node x)
      → used node' size ≡ used node size
  unfolding used
  used-keyed node node' zero h = refl
  used-keyed node node' (suc size) h =
      let rest = used-keyed node node' size h in let same = h size in rw (rest, same) refl

  pub set_val-keyed :
      (node : Nodes K V) (i : ℕ) (v : Option V) (x : ℕ) → keyed (set_val node i v) x ≡ keyed node x
  set_val-keyed node i v x = ground arith

  pub set_key-Grown : (node : Nodes K V) (mp : ℕ) (k : K) → Grown node (set_key node mp k) mp
  set_key-Grown node mp k = ((λ x off. ground arith), ground arith)

  pub chain_node-Grown :
      (node : Nodes K V) (mp n : ℕ) (k : K) → Grown node (set_key (chain_node node mp n) n k) n
  unfolding chain_node
  chain_node-Grown node mp n k = ((λ x off. ground arith), ground arith)

  move_node-key :
      (node : Nodes K V) (prev mp n : ℕ) (k : K) (x : ℕ)
      → x ≢ mp
      → x ≢ n
      → (set_key (move_node node prev mp n) mp k x).key ≡ (node x).key
  unfolding move_node
  move_node-key node prev mp n k x off off' = ground arith

  move_node-key_n :
      (node : Nodes K V) (prev mp n : ℕ) (k : K)
      → n ≢ mp
      → (set_key (move_node node prev mp n) mp k n).key ≡ (node mp).key
  unfolding move_node
  move_node-key_n node prev mp n k off = ground arith

  pub move_node-Grown :
      (node : Nodes K V) (prev mp n : ℕ) (k : K)
      → keyed node mp ≡ true
      → Grown node (set_key (move_node node prev mp n) mp k) n
  unfolding move_node
  move_node-Grown node prev mp n k full = (
    (λ x off. elim (==-cases x mp) [
      | inl here ↦
          ap (keyed (set_key (move_node node prev mp n) mp k)) here
          ∙ (new_key ∙ sym (ap (keyed node) here ∙ full))
      | inr there ↦ ap is_some (move_node-key node prev mp n k x there off)
    ]),
    elim (==-cases n mp) [
      | inl here ↦ ap (keyed (set_key (move_node node prev mp n) mp k)) here ∙ new_key
      | inr there ↦ ap is_some (move_node-key_n node prev mp n k there) ∙ full
    ],
  )
    where
      new_key : keyed (set_key (move_node node prev mp n) mp k) mp ≡ true
      new_key = ap (λ x. is_some x.key) (update-here (move_node node prev mp n) mp _)
