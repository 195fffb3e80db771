-- ===== src/Tests/Strings.antt =====
-- The string table of src/lstring.c: four chains, empty at first.
use lunacy.Base.{
  ℕ, ◌^◌, ◌<◌, ◌≡◌, refl, false, List, [], ◌∷◌, some, length, arith, replicate, get_or,
  get_or-replicate,
}
use lunacy.Strings.SipHash.{
  default_key, start, sip_hash, sip_end, sip_loop, last_word, absorb, sip_round,
}
use lunacy.Strings.SipHash.Words.{words, absorb_all, sip_hash-words}
use lunacy.Strings.Table.{TString, StringTable, max_text, resize, newlstr}
use lunacy.Strings.Table.Resize.{WellFormed, Keeps, resize-Keeps}
use lunacy.Strings.Table.Interning.{Interned, newlstr-Interned, newlstr-twice}

-- "hello"
abbrev hello : List ℕ
hello = b'h' ∷ b'e' ∷ b'l' ∷ b'l' ∷ b'o' ∷ []

hash_hello : sip_hash default_key hello ≡ 960994188
unfolding sip_hash default_key sip_end sip_loop start last_word absorb sip_round
hash_hello = refl

hash_a : sip_hash default_key (b'a' ∷ []) ≡ 1051544902
unfolding sip_hash default_key sip_end sip_loop start last_word absorb sip_round
hash_a = refl

sip_hash-words_example :
    sip_hash default_key hello ≡ sip_end (absorb_all (start default_key) (words 5 hello))
sip_hash-words_example = sip_hash-words default_key hello (omega arith)

abbrev empty_table : StringTable
empty_table = record {
  hash = replicate 4 [];
  size = 4;
  nuse = 0;
  sweeping = false;
  key = default_key;
  next_address = 1;
}

empty_chain : (i : ℕ) → get_or {A = List TString} (replicate 4 []) i [] ≡ []
empty_chain i = get_or-replicate 4 i []

empty-WellFormed : WellFormed empty_table
empty-WellFormed = record {
  bits = 2;
  size = refl;
  hash = refl;
  chains = λ i. rw (empty_chain i) (record { placed = tt; distinct = tt });
}

hello_fits : length hello < max_text
unfolding max_text
hello_fits = omega arith

resize-Keeps_example : Keeps empty_table (resize empty_table (2 ^ 3))
resize-Keeps_example = resize-Keeps empty_table 3 empty-WellFormed

newlstr-Interned_example :
    (ts : TString) × (tb' : StringTable) × (newlstr empty_table hello ≡ some (ts, tb'))
    × Interned empty_table hello ts tb'
newlstr-Interned_example = newlstr-Interned empty_table hello empty-WellFormed hello_fits

-- The results of interning "hello" once and again.
first :
    (ts : TString) × (tb : StringTable) × (newlstr empty_table hello ≡ some (ts, tb))
    × WellFormed tb
first =
    let r = newlstr-Interned empty_table hello empty-WellFormed hello_fits in
    let i = r.3 in (r.0, r.1, r.2, i.formed)

second : (ts : TString) × (tb : StringTable) × (newlstr first.1 hello ≡ some (ts, tb))
second = let r = newlstr-Interned first.1 hello first.3 hello_fits in (r.0, r.1, r.2)

newlstr-twice_example : first.0.address ≡ second.0.address
newlstr-twice_example =
    newlstr-twice empty_table first.1 second.1 hello first.0 second.0 empty-WellFormed hello_fits
      first.2 second.2
