-- ===== src/Tests/Texts.antt =====
-- string.sub, string.byte and string.char (src/lstrlib.c) on a text of five bytes.
use lunacy.Base.{◌≡◌, refl, [], ◌∷◌, some, none, leb, length, ◌+◌, if◌then◌else◌, map, arith}
use lunacy.Base.Int.{pos, negsuc}
use lunacy.Patterns.{Bytes}
use lunacy.Text.{
  max_cstack, to_int, check_int, str_sub, str_byte, str_char, str_reverse, reverse_loop, str_rep,
  rep_loop,
}
use lunacy.Text.Slices.{str_char-str_byte}

abbrev hello : Bytes
hello = b'h' ∷ b'e' ∷ b'l' ∷ b'l' ∷ b'o' ∷ []

str_char-str_byte_example :
    (str_byte 3 hello (pos 2) (some (negsuc 1)) ≡ (
      if leb (3 + length (str_sub hello (pos 2) (negsuc 1))) max_cstack
      then some (str_sub hello (pos 2) (negsuc 1))
      else none))
    × (str_char (map pos (str_sub hello (pos 2) (negsuc 1)))
        ≡ some (str_sub hello (pos 2) (negsuc 1)))
str_char-str_byte_example =
    str_char-str_byte 3 hello (pos 2) (negsuc 1) (omega arith) (omega arith)
      (omega arith, (omega arith, (omega arith, (omega arith, (omega arith, tt)))))

text_runs :
    (str_reverse hello ≡ b'o' ∷ b'l' ∷ b'l' ∷ b'e' ∷ b'h' ∷ [])
    × (str_rep (b'a' ∷ []) (negsuc 3) ≡ [])
    × (str_rep (b'a' ∷ []) (pos 2) ≡ b'a' ∷ b'a' ∷ [])
unfolding str_reverse reverse_loop str_rep rep_loop check_int to_int
text_runs = (refl, refl, refl)
