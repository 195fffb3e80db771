-- ===== src/Chunk/Reads.antt =====
-- What src/lundump.c reads off a stream that begins with a piece of the chunk format: one rule for
-- sequences, and every piece below a function.
use native.Mathlib.Numerals.{add-one}
use lunacy.Base.{
  ℕ, suc, ◌+◌, ◌*◌, ◌^◌, ◌<◌, ◌≤◌, ◌≡◌, refl, ap, ◌∙◌, arith, List, [], ◌∷◌, ◌++◌, append_assoc,
  append-nil, none, some, Bool, true, false, not, ◌==◌, ltb, lt→ltb, length, take, All, u8,
  length-append, take-append, drop-append,
}
use lunacy.Stream.{Zio, read}
use lunacy.Stream.Read.{content, read-IsRead, content-rest}
use lunacy.Chunk.{
  ByteString, StringRef, Constant, nil, boolean, number, string, LocVar, le_bytes, from_le,
  vector_bytes, vector_from,
}
use lunacy.Chunk.Bytes.{
  length-le_bytes, from_le-le_bytes, length-vector_bytes, vector_from-vector_bytes,
}
use lunacy.Chunk.Format.{
  char_format, vector_format, string_format, constant_format, locvar_format, each_format,
}
use lunacy.Chunk.Load.{
  ok, Load, LoadError, bad_integer, on_result, ◌>>=◌, ret, require, load_block, load_char, load_int,
  load_number, load_size, load_text, load_string, load_array, load_vector, repeat, constant_of,
  load_constant, load_locvar,
}

-- `m` reads the value `v` off a stream that begins with `bs`, and leaves what follows.
pub record Reads {A : Type 0} (m : Load A) (v : A) (bs : ByteString) : Type 0 where
  pub at :
      (z : Zio) (rest : ByteString)
      → content z ≡ bs ++ rest
      → (z' : Zio) × (m z ≡ ok v z') × (content z' ≡ rest)

pub Reads-ret : {A : Type 0} (v : A) → Reads (ret v) v []
Reads-ret v = record { at = λ z rest e. (z, refl, e) }

pub Reads-require :
    {A : Type 0} (c : Bool) (e : LoadError) (v : A) → c ≡ true → Reads (require c e v) v []
Reads-require c e v h = record { at = λ z rest k. (z, rw h, k) }

pub Reads-bind :
    {A B : Type 0} {m : Load A} (k : A → Load B) {a : A} {b : B} {bs cs : ByteString}
    → Reads m a bs
    → Reads (k a) b cs
    → Reads (m >>= k) b (bs ++ cs)
Reads-bind k {bs} {cs} first next = record {
  at = λ z rest e.
      let (z₁, run, left) = first.at z (cs ++ rest) (e ∙ append_assoc bs cs rest) in
      let (z₂, run', left') = next.at z₁ rest left in (z₂, ap (on_result k) run ∙ run', left');
}

-- A last step that reads nothing more.
pub Reads-last :
    {A B : Type 0} {m : Load A} (k : A → Load B) {a : A} {b : B} {bs : ByteString}
    → Reads m a bs
    → Reads (k a) b []
    → Reads (m >>= k) b bs
Reads-last k first next = rw append-nil at (Reads-bind k first next)

pub Reads-map :
    {A B : Type 0} {m : Load A} (g : A → B) {a : A} {bs : ByteString}
    → Reads m a bs
    → Reads (m >>= λ x. ret (g x)) (g a) bs
Reads-map g {bs} first = record {
  at = λ z rest e.
      let (z', run, left) = first.at z rest e in (z', ap (on_result (λ x. ret (g x))) run, left);
}

pub Reads-block : (bs : ByteString) (n : ℕ) → length bs ≡ n → Reads (load_block n) bs bs
unfolding load_block
Reads-block bs n size = record {
  at = λ z rest e.
      let r = read-IsRead z n in
      let all : n ≤ length (content z) = rw e (omega (arith, length-append bs rest)) in
      let none_missing : (read z n).missing ≡ 0 = omega (arith, r.missing) in
      (
        (read z n).rest,
        rw none_missing (
            ap (λ (b : ByteString). ok b (read z n).rest)
              (r.bytes ∙ rw e (take-append n bs rest size))),
        content-rest z n all ∙ rw e (drop-append n bs rest size),
      );
}

pub Reads-char : (y : ℕ) → y < 256 → Reads load_char y (char_format y)
unfolding load_char from_le
Reads-char y h =
    let e : u8 y + 256 * 0 ≡ y = omega arith in
    rw e at (Reads-map (λ b. from_le b) (Reads-block (char_format y) 1 refl))

-- A number below 2 ^ 31: what an `int` that is not negative holds.
pub Reads-int : (x : ℕ) → x < 2 ^ 31 → Reads load_int x (le_bytes 4 x)
unfolding load_int
Reads-int x h =
    let e = from_le-le_bytes 4 x (omega arith) in
    let step =
      Reads-bind (λ b. require (ltb (from_le b) (2 ^ 31)) bad_integer (from_le b))
        (Reads-block (le_bytes 4 x) 4 (length-le_bytes 4 x))
        (Reads-require (ltb (from_le (le_bytes 4 x)) (2 ^ 31)) bad_integer (from_le (le_bytes 4 x))
          (rw e (lt→ltb x _ h))) in
    rw (append-nil, e) at step

pub Reads-number : (x : ℕ) → x < 2 ^ 64 → Reads load_number x (le_bytes 8 x)
unfolding load_number
Reads-number x h =
    rw (from_le-le_bytes 8 x h) at
      (Reads-map (λ b. from_le b) (Reads-block (le_bytes 8 x) 8 (length-le_bytes 8 x)))

Reads-size : (x : ℕ) → x < 2 ^ 64 → Reads load_size x (le_bytes 8 x)
unfolding load_size
Reads-size x h =
    rw (from_le-le_bytes 8 x h) at
      (Reads-map (λ b. from_le b) (Reads-block (le_bytes 8 x) 8 (length-le_bytes 8 x)))

Reads-text :
    (s : ByteString) (n : ℕ) → length s ≡ n → Reads (load_text (suc n)) (some s) (s ++ 0 ∷ [])
unfolding load_text
Reads-text s n size =
    let all : length (s ++ 0 ∷ []) ≡ suc n = omega (arith, length-append s (0 ∷ [])) in
    rw (take-append n s (0 ∷ []) size) at
      (Reads-map (λ b. some (take n b)) (Reads-block (s ++ 0 ∷ []) (suc n) all))

-- A string that fits the address space.
abbrev pub StringFits : StringRef → Type 0
StringFits none = Unit
StringFits (some s) = length s + 1 < 2 ^ 64

pub Reads-string : (r : StringRef) → StringFits r → Reads load_string r (string_format r)
unfolding load_string string_format load_text
Reads-string none h =
    rw append-nil at (Reads-bind load_text (Reads-size 0 (omega arith)) (Reads-ret none))
Reads-string (some s) h =
    Reads-bind load_text (Reads-size (length s + 1) h) (rw add-one (Reads-text s (length s) refl))

pub Reads-vector :
    (w : ℕ) (xs : List ℕ)
    → All (λ x. x < 256 ^ w) xs
    → length xs < 2 ^ 31
    → Reads (load_vector w) xs (vector_format w xs)
unfolding load_vector load_array vector_format
Reads-vector w xs fits size = Reads-bind (load_array w) (Reads-int (length xs) size) (
    rw (vector_from-vector_bytes w xs fits) at (
      Reads-map (λ b. vector_from w (length xs) b)
        (Reads-block (vector_bytes w xs) (length xs * w) (length-vector_bytes w xs))))

pub Reads-repeat :
    {A : Type 0} (m : Load A) (format : A → ByteString) (Fits : A → Type 0)
    → ((x : A) → Fits x → Reads m x (format x))
    → (xs : List A) → All Fits xs
    → Reads (repeat (length xs) m) xs (each_format format xs)
unfolding repeat each_format
Reads-repeat m format Fits one [] h = Reads-ret []
Reads-repeat m format Fits one (x ∷ xs) (fits, rest) =
    Reads-bind _ (one x fits) (Reads-map (λ l. x ∷ l) (Reads-repeat m format Fits one xs rest))

abbrev pub ConstantFits : Constant → Type 0
ConstantFits nil = Unit
ConstantFits (boolean b) = Unit
ConstantFits (number n) = n < 2 ^ 64
ConstantFits (string s) = StringFits s

pub Reads-constant : (c : Constant) → ConstantFits c → Reads load_constant c (constant_format c)
unfolding load_constant constant_of constant_format
Reads-constant nil h = Reads-last constant_of (Reads-char 0 (omega arith)) (Reads-ret nil)
Reads-constant (boolean false) h =
    Reads-bind constant_of (Reads-char 1 (omega arith))
      (Reads-map (λ c. boolean (not (c == 0))) (Reads-char 0 (omega arith)))
Reads-constant (boolean true) h =
    Reads-bind constant_of (Reads-char 1 (omega arith))
      (Reads-map (λ c. boolean (not (c == 0))) (Reads-char 1 (omega arith)))
Reads-constant (number n) h =
    Reads-bind constant_of (Reads-char 3 (omega arith)) (Reads-map number (Reads-number n h))
Reads-constant (string s) h =
    Reads-bind constant_of (Reads-char 4 (omega arith)) (Reads-map string (Reads-string s h))

abbrev pub LocVarFits : LocVar → Type 0
LocVarFits v = StringFits v.varname × (v.startpc < 2 ^ 31) × (v.endpc < 2 ^ 31)

pub Reads-locvar : (v : LocVar) → LocVarFits v → Reads load_locvar v (locvar_format v)
unfolding load_locvar locvar_format
Reads-locvar v (name, start, end) = Reads-bind _ (Reads-string v.varname name) (
    Reads-bind _ (Reads-int v.startpc start) (
      Reads-map (λ x. record { varname = v.varname; startpc = v.startpc; endpc = x })
        (Reads-int v.endpc end)))
