-- ===== src/Patterns.antt =====
-- The pattern matching of src/lstrlib.c. A pattern is the list of its bytes from `p` on; it ends at
-- its first 0. A position in the subject is its distance from `src_init`.
pub mod Class
pub mod Item
pub mod Match
pub mod Shorter
pub mod Outcomes
pub mod Scan
pub mod Steps
pub mod Runs
pub mod Plain
pub mod Push
pub mod Find
pub mod Leftmost
pub mod Ends
pub mod Substitute
pub mod GsubLoop
pub mod Unchanged
use lunacy.Base.{ℕ, Bool, List, [], ◌∷◌, Option, none, some, length}

abbrev pub Bytes : Type 0
Bytes = List ℕ

-- The functions of <ctype.h> on `unsigned char`.
pub record Ctype : Type 0 where
  pub isalpha : ℕ → Bool
  pub iscntrl : ℕ → Bool
  pub isdigit : ℕ → Bool
  pub islower : ℕ → Bool
  pub ispunct : ℕ → Bool
  pub isspace : ℕ → Bool
  pub isupper : ℕ → Bool
  pub isalnum : ℕ → Bool
  pub isxdigit : ℕ → Bool
  pub tolower : ℕ → ℕ

-- The messages of `luaL_error`; `out_of_rounds` is none of them, but the end of the fuel.
pub data PatternError : Type 0 where
  invalid_capture_index invalid_pattern_capture ends_with_escape missing_bracket : PatternError
  unbalanced_pattern missing_set too_many_captures unfinished_capture invalid_replacement :
      PatternError
  out_of_rounds : PatternError

-- `len` of a capture: CAP_UNFINISHED, CAP_POSITION or a length.
pub data CapLen : Type 0 where
  unfinished position : CapLen
  closed : ℕ → CapLen

pub record Capture : Type 0 where
  pub init : ℕ
  pub len : CapLen

-- `MatchState`: `level` is the length of the list.
abbrev pub MatchState : Type 0
MatchState = List Capture

-- LUA_MAXCAPTURES
abbrev pub max_captures : ℕ
max_captures = 32

-- What `match` returns, and the state that it leaves behind.
pub data Outcome : Type 0 where
  matched : ℕ → MatchState → Outcome
  failed : MatchState → Outcome
  raised : PatternError → Outcome

-- A value that a function of the library gives to the program.
pub data Pushed : Type 0 where
  pushed_nil : Pushed
  pushed_number : ℕ → Pushed
  pushed_text : Bytes → Pushed

-- What a function of the library gives, or the message of its error.
pub data Result (A : Type 0) : Type 0 where
  ok : A → Result A
  error : PatternError → Result A

abbrev pub and_then : {A B : Type 0} → (A → Result B) → Result A → Result B
and_then f (ok a) = f a
and_then f (error e) = error e
