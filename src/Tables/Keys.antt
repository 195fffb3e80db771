-- ===== src/Tables/Keys.antt =====
-- The keys of tables and their main positions (src/ltable.c), with raw equality (src/lobject.c).
use native.Mathlib.Nat.{mod-lt}
use lunacy.Base.{
  ℕ, zero, suc, ◌+◌, ◌-◌, ◌*◌, ◌/◌, ◌%◌, ◌^◌, ◌≤◌, ◌<◌, ◌≡◌, refl, ap, ◌∙◌, inl, inr, Bool, true,
  false, ◌&&◌, List, [], ◌∷◌, ◌==◌, ==-cases, and_parts, Bool-cases, if_both, if◌then◌else◌, arith,
}
use Prim.Native.Nat.{bit_and, bit_or}
use lunacy.Base.Bits.{bit_and_step, bit_or_step, bit_and-zero, bit_or-zero}
use lunacy.Tables.Hash.{Keys}
use lunacy.Tables.Access.{Indices}

-- lua_Number without NaN, as the C compiler has it: the test luai_numeq, that of 0, the words in memory,
-- lua_number2int of a positive whole number, and 0 of any other, and cast_num.
pub record Numbers (N : Type 0) : Type 0 where
  pub numeq : N → N → Bool
  pub is_zero : N → Bool
  pub words : N → List ℕ
  pub number2int : N → ℕ
  pub cast_num : ℕ → N
  pub numeq_refl : (n : N) → numeq n n ≡ true
  pub numeq_sym : (n m : N) → numeq n m ≡ true → numeq m n ≡ true
  pub numeq_trans : (n m p : N) → numeq n m ≡ true → numeq m p ≡ true → numeq n p ≡ true
  pub same_zero : (n m : N) → numeq n m ≡ true → is_zero n ≡ is_zero m
  pub same_words : (n m : N) → numeq n m ≡ true → is_zero n ≡ false → words n ≡ words m
  pub number2int-cast_num : (i : ℕ) → i < 2 ^ 31 → number2int (cast_num i) ≡ i
  pub same_int : (n m : N) → numeq n m ≡ true → number2int n ≡ number2int m
  pub one_number : (n : N) → 0 < number2int n → numeq n (cast_num (number2int n)) ≡ true

-- A number, or a value of another type with its tag: a Boolean, or a pointer.
pub data Key (N : Type 0) : Type 0 where
  number : N → Key N
  tagged : (type_tag value : ℕ) → Key N

-- LUA_TBOOLEAN and LUA_TSTRING
abbrev pub boolean_tag : ℕ
boolean_tag = 1

abbrev pub string_tag : ℕ
string_tag = 4

abbrev pub hashpow2 : (size h : ℕ) → ℕ
hashpow2 size h = bit_and h (size - 1)

abbrev pub hashmod : (size h : ℕ) → ℕ
hashmod size h = h % bit_or (size - 1) 1

-- IntPoint
abbrev pub int_point : ℕ → ℕ
int_point p = p % 2 ^ 32

abbrev pub sum : List ℕ → ℕ
sum [] = 0
sum (a ∷ words) = (a + sum words) % 2 ^ 32

bit_and-le : (fuel a b : ℕ) → b ≤ fuel → bit_and a b ≤ b
bit_and-le zero a b le =
    let none_set : b ≡ 0 = omega arith in
    let e = ap (bit_and a) none_set in omega (arith, bit_and-zero a)
bit_and-le (suc fuel) a b le = elim (==-cases b 0) [
  | inl none_set ↦ let e = ap (bit_and a) none_set in omega (arith, bit_and-zero a)
  | inr some_set ↦ omega (arith, bit_and_step a b, bit_and-le fuel (a / 2) (b / 2) (omega arith))
]

hashpow2-lt : (size h : ℕ) → 0 < size → hashpow2 size h < size
hashpow2-lt size h some_nodes = omega (arith, bit_and-le (size - 1) h (size - 1) (omega arith))

hashmod-lt : (size h : ℕ) → 0 < size → hashmod size h < size
hashmod-lt size h some_nodes =
    let odd : bit_or (size - 1) 1 ≡ (size - 1) / 2 * 2 + 1 =
      omega (arith, bit_or_step (size - 1) 1, bit_or-zero ((size - 1) / 2)) in
    let pos : 0 < bit_or (size - 1) 1 = omega arith in omega (arith, mod-lt h pos)

module _ {N : Type 0} (numbers : Numbers N) where
  unfoldable pub hashnum : (size : ℕ) → N → ℕ
  hashnum size n = if numbers.is_zero n then 0 else hashmod size (sum (numbers.words n))

  -- `luaO_rawequalObj`
  unfoldable pub rawequal_obj : Key N → Key N → Bool
  rawequal_obj (number n) (number m) = numbers.numeq n m
  rawequal_obj (number n) (tagged t p) = false
  rawequal_obj (tagged t p) (number m) = false
  rawequal_obj (tagged t p) (tagged u q) = t == u && p == q

  -- `mainposition`; `string_hash` is the field `hash` of the string at an address.
  unfoldable pub mainposition : (ℕ → ℕ) → (size : ℕ) → Key N → ℕ
  mainposition string_hash size (number n) = hashnum size n
  mainposition string_hash size (tagged t p) =
      if t == string_tag
      then hashpow2 size (string_hash p)
      else if t == boolean_tag
      then hashpow2 size p
      else hashmod size (int_point p)

  -- `arrayindex`, with 0 for -1.
  abbrev pub arrayindex : Key N → ℕ
  arrayindex (number n) = numbers.number2int n
  arrayindex (tagged t p) = 0

  pub rawequal_refl : (k : Key N) → rawequal_obj k k ≡ true
  unfolding rawequal_obj
  rawequal_refl (number n) = numbers.numeq_refl n
  rawequal_refl (tagged t p) = ground arith

  pub rawequal_sym : (k l : Key N) → rawequal_obj k l ≡ true → rawequal_obj l k ≡ true
  unfolding rawequal_obj
  rawequal_sym (number n) (number m) e = numbers.numeq_sym n m e
  rawequal_sym (number n) (tagged t p) e = absurd cc
  rawequal_sym (tagged t p) (number m) e = absurd cc
  rawequal_sym (tagged t p) (tagged u q) e = ground (arith, and_parts (t == u) (p == q) e)

  pub rawequal_trans :
      (k l m : Key N) → rawequal_obj k l ≡ true → rawequal_obj l m ≡ true → rawequal_obj k m ≡ true
  unfolding rawequal_obj
  rawequal_trans (number n) (number m) (number p) e f = numbers.numeq_trans n m p e f
  rawequal_trans (number n) (number m) (tagged u q) e f = absurd cc
  rawequal_trans (number n) (tagged t p) m e f = absurd cc
  rawequal_trans (tagged t p) (number n) m e f = absurd cc
  rawequal_trans (tagged t p) (tagged u q) (number n) e f = absurd cc
  rawequal_trans (tagged t p) (tagged u q) (tagged w r) e f =
      ground (arith, and_parts (t == u) (p == q) e, and_parts (u == w) (q == r) f)

  module _ (string_hash : ℕ → ℕ) where
    pub mainposition-same :
        (size : ℕ) (k l : Key N)
        → rawequal_obj k l ≡ true
        → mainposition string_hash size k ≡ mainposition string_hash size l
    unfolding rawequal_obj mainposition hashnum
    mainposition-same size (number n) (number m) e =
        let z = numbers.same_zero n m e in
        elim (Bool-cases (numbers.is_zero m)) [
          | inl zero_m ↦ rw (z, zero_m) refl
          | inr other ↦ let w = numbers.same_words n m e (z ∙ other) in rw (z, other, w) refl
        ]
    mainposition-same size (number n) (tagged t p) e = absurd cc
    mainposition-same size (tagged t p) (number m) e = absurd cc
    mainposition-same size (tagged t p) (tagged u q) e =
        let (same_tag, same_value) = and_parts (t == u) (p == q) e in
        let t_u : t ≡ u = ground (arith, same_tag) in
        let p_q : p ≡ q = ground (arith, same_value) in rw (t_u, p_q) refl

    pub mainposition-lt : (size : ℕ) (k : Key N) → 0 < size → mainposition string_hash size k < size
    unfolding mainposition hashnum
    mainposition-lt size (number n) some_nodes =
        if_both (λ i. i < size) (numbers.is_zero n) some_nodes
          (hashmod-lt size (sum (numbers.words n)) some_nodes)
    mainposition-lt size (tagged t p) some_nodes =
        if_both (λ i. i < size) (t == string_tag) (hashpow2-lt size (string_hash p) some_nodes)
          (if_both (λ i. i < size) (t == boolean_tag) (hashpow2-lt size p some_nodes)
            (hashmod-lt size (int_point p) some_nodes))

    -- Raw equality and the main positions satisfy the laws that the hash part uses.
    abbrev pub lua_keys : Keys (Key N)
    lua_keys = record {
      raw_equal = rawequal_obj;
      main_position = mainposition string_hash;
      raw_equal_refl = rawequal_refl;
      raw_equal_sym = rawequal_sym;
      raw_equal_trans = rawequal_trans;
      same_position = mainposition-same;
      position-lt = mainposition-lt;
    }

    pub same_arrayindex : (k l : Key N) → rawequal_obj k l ≡ true → arrayindex k ≡ arrayindex l
    unfolding rawequal_obj
    same_arrayindex (number n) (number m) e = numbers.same_int n m e
    same_arrayindex (number n) (tagged t p) e = absurd cc
    same_arrayindex (tagged t p) (number m) e = absurd cc
    same_arrayindex (tagged t p) (tagged u q) e = refl

    pub one_key :
        (k : Key N)
        → 0 < arrayindex k
        → rawequal_obj k (number (numbers.cast_num (arrayindex k))) ≡ true
    unfolding rawequal_obj
    one_key (number n) some_index = numbers.one_number n some_index
    one_key (tagged t p) some_index = absurd (omega arith)

    abbrev pub lua_indices : Indices lua_keys
    lua_indices = record {
      arrayindex = arrayindex;
      of_index = λ i. number (numbers.cast_num i);
      arrayindex-of_index = numbers.number2int-cast_num;
      same_index = same_arrayindex;
      one_key = one_key;
    }
