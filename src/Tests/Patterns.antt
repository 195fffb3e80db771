-- ===== src/Tests/Patterns.antt =====
-- Patterns on concrete subjects (src/lstrlib.c), with the classes of ASCII.
use lunacy.Base.{
  ℕ, ◌+◌, ◌≤◌, ◌<◌, none, some, same_bytes, ◌≡◌, ◌≢◌, refl, Bool, true, false, ◌&&◌, ◌||◌, [], ◌∷◌,
  ltb, leb, ◌==◌, if◌then◌else◌, arith,
}
use lunacy.Base.Int.{pos, negsuc}
use lunacy.Patterns.{
  Bytes, Ctype, out_of_rounds, unfinished, closed, MatchState, matched, failed, raised,
  invalid_pattern_capture,
}
use lunacy.Patterns.{pushed_number, pushed_text, ok, error}
use lunacy.Patterns.Plain.{memchr, memfind_loop, lmemfind, first_at, lmemfind-first_at}
use lunacy.Patterns.Push.{push_onecapture, push_loop, push_captures}
use lunacy.Patterns.Find.{
  posrelat, has_specials, search, plain_values, first_position, str_find_aux, gmatch_aux,
}
use lunacy.Patterns.Leftmost.{Leftmost, search-Leftmost}
use lunacy.Patterns.Ends.{str_find_aux-ends, gmatch_aux-next}
use lunacy.Patterns.Substitute.{by_text, escaped, add_s, add_value, gsub_on, gsub_loop, str_gsub}
use lunacy.Patterns.Unchanged.{whole_match, str_gsub-ends, str_gsub-whole}
use lunacy.Patterns.Outcomes.{Captured}
use lunacy.Patterns.Class.{
  class_test, match_class, in_set, matchbracketclass, singlematch, set_end, classend,
}
use lunacy.Patterns.Item.{with_suffix, class_item, escape_item, item}
use lunacy.Patterns.Match.{
  capture_to_close, check_capture, start_capture, end_capture, match_capture, count_matches,
  max_tries, max_expand, min_tries, min_expand, match_single, match_item, match,
}
use lunacy.Patterns.Runs.{match-undo, match-bounds}

abbrev between : ℕ → ℕ → ℕ → Bool
between lo hi c = leb lo c && leb c hi

abbrev ascii : Ctype
ascii = record {
  isalpha = λ c. between b'a' b'z' c || between b'A' b'Z' c;
  iscntrl = λ c. ltb c 32 || c == 127;
  isdigit = between b'0' b'9';
  islower = between b'a' b'z';
  ispunct = λ c. between 33 47 c || (between 58 64 c || (between 91 96 c || between 123 126 c));
  isspace = λ c. c == 32 || between 9 13 c;
  isupper = between b'A' b'Z';
  isalnum = λ c. between b'a' b'z' c || (between b'A' b'Z' c || between b'0' b'9' c);
  isxdigit = λ c. between b'0' b'9' c || (between b'a' b'f' c || between b'A' b'F' c);
  tolower = λ c. if between b'A' b'Z' c then c + 32 else c;
}

-- "key=12"
abbrev subject : Bytes
subject = b'k' ∷ b'e' ∷ b'y' ∷ b'=' ∷ b'1' ∷ b'2' ∷ []

-- "(%a+)=(%d*)"
abbrev pair_pattern : Bytes
pair_pattern = b'(' ∷ b'%' ∷ b'a' ∷ b'+' ∷ b')' ∷ b'=' ∷ b'(' ∷ b'%' ∷ b'd' ∷ b'*' ∷ b')' ∷ []

-- "(%a+)(-)"
abbrev other_pattern : Bytes
other_pattern = b'(' ∷ b'%' ∷ b'a' ∷ b'+' ∷ b')' ∷ b'(' ∷ b';' ∷ b')' ∷ []

abbrev pair_captures : MatchState
pair_captures = record { init = 0; len = closed 3 } ∷ record { init = 4; len = closed 2 } ∷ []

match_runs :
    (match ascii subject 12 0 pair_pattern [] ≡ matched 6 pair_captures)
    × (match ascii subject 12 6 other_pattern pair_captures ≡ failed pair_captures)
    × (match ascii subject 12 0 (b'(' ∷ b'%' ∷ b'a' ∷ []) []
        ≡ matched 1 (record { init = 0; len = unfinished } ∷ []))
    × (match ascii subject 12 0 (b')' ∷ []) [] ≡ raised invalid_pattern_capture)
    × (match ascii subject 12 0
          (b'(' ∷ b'[' ∷ b'^' ∷ b'=' ∷ b']' ∷ b'-' ∷ b')' ∷ b'=' ∷ b'%' ∷ b'1' ∷ [])
          []
        ≡ failed [])
unfolding match match_item item start_capture escape_item class_item classend with_suffix
    match_single singlematch match_class class_test max_expand max_tries count_matches end_capture
    capture_to_close in_set matchbracketclass set_end check_capture match_capture min_expand
    min_tries
match_runs = (refl, refl, refl, refl, refl)

match-undo_example : pair_captures ≡ pair_captures
match-undo_example =
    match-undo ascii subject 12 6 other_pattern pair_captures pair_captures (omega arith)
      (omega arith) (omega arith, (omega arith, tt)) match_runs.1

match-bounds_example : (0 ≤ 6) × (6 ≤ 6) × Captured 6 pair_captures
match-bounds_example =
    match-bounds ascii subject 12 0 pair_pattern [] pair_captures 6 (omega arith) (omega arith) tt
      match_runs.0

search-Leftmost_example :
    Leftmost ascii subject pair_pattern 0 (0 + 6) (search ascii subject false pair_pattern 6 0)
search-Leftmost_example = search-Leftmost ascii subject pair_pattern false 6 0

str_find_aux-ends_example :
    str_find_aux ascii subject true pair_pattern (negsuc 6) false ≢ error out_of_rounds
str_find_aux-ends_example = str_find_aux-ends ascii subject true pair_pattern (negsuc 6) false

-- "%w"
abbrev letter : Bytes
letter = b'%' ∷ b'w' ∷ []

gmatch_runs :
    (gmatch_aux ascii subject letter 3 ≡ ok (some (5, pushed_text (b'1' ∷ []) ∷ [])))
    × (str_find_aux ascii subject true (b'=' ∷ []) (pos 2) false
        ≡ ok (pushed_number 4 ∷ pushed_number 4 ∷ []))
    × (str_gsub ascii (λ n. []) subject letter (by_text whole_match) (some (pos 2))
        ≡ ok (subject, 2))
unfolding gmatch_aux search push_captures push_loop push_onecapture str_find_aux first_position
    posrelat has_specials plain_values lmemfind memfind_loop memchr str_gsub gsub_loop gsub_on
    add_value add_s escaped match match_item item start_capture escape_item class_item classend
    with_suffix match_single singlematch match_class class_test same_bytes
gmatch_runs = (refl, refl, refl)

gmatch_aux-next_example : (3 < 5) × (5 ≤ 7)
gmatch_aux-next_example =
    gmatch_aux-next ascii subject letter 3 5 (pushed_text (b'1' ∷ []) ∷ []) gmatch_runs.0

lmemfind-first_at_example :
    lmemfind subject (b'=' ∷ b'1' ∷ []) ≡ first_at (b'=' ∷ b'1' ∷ []) 0 subject
lmemfind-first_at_example = lmemfind-first_at subject (b'=' ∷ b'1' ∷ [])

str_gsub-ends_example :
    str_gsub ascii (λ n. []) subject letter (by_text whole_match) none ≢ error out_of_rounds
str_gsub-ends_example = str_gsub-ends ascii (λ n. []) subject letter (by_text whole_match) none

str_gsub-whole_example : subject ≡ subject
str_gsub-whole_example =
    str_gsub-whole ascii (λ n. []) subject letter subject (some (pos 2)) 2 refl gmatch_runs.2
