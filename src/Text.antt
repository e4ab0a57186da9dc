-- ===== src/Text.antt =====
-- Texts as the Go code reads them: a string is the sequence of its code points, its length counts
-- the bytes of its UTF-8 form. What `strings`, `bufio` and `encoding/hex` do with them.
pub mod Trim
pub mod Clean
pub mod Split
pub mod Hex
pub mod Decimal
pub mod Search
use mindorr.Prelude.{ℕ, zero, suc, ◌+◌, ◌-◌, Bool, true, false, ◌&&◌, Char, code, String, ltb, leb}
use mindorr.Prelude.{if◌then◌else◌, ◌≡◌, refl}

abbrev pub is_empty : String → Bool
is_empty String.[] = true
is_empty (String.◌∷◌ c s) = false

pub eq_of_is_empty : (s : String) → is_empty s ≡ true → s ≡ ""
eq_of_is_empty String.[] h = refl
eq_of_is_empty (String.◌∷◌ c s) h = cc

-- Bytes of the UTF-8 form of a code point.
abbrev pub utf8_len : ℕ → ℕ
utf8_len c = if ltb c 0x80 then 1 else if ltb c 0x800 then 2 else if ltb c 0x10000 then 3 else 4

-- Go's `len` of a string.
unfoldable pub byte_len : String → ℕ
byte_len String.[] = 0
byte_len (String.◌∷◌ c s) = utf8_len (code c) + byte_len s

-- The character at a position, or the default behind the end.
abbrev pub char_or : String → ℕ → Char → Char
char_or String.[] i d = d
char_or (String.◌∷◌ c s) zero d = c
char_or (String.◌∷◌ c s) (suc i) d = char_or s i d

abbrev pub is_upper_ascii : ℕ → Bool
is_upper_ascii c = leb b'A' c && leb c b'Z'

-- The case table beyond ASCII is the argument `table`.
abbrev pub lower_char : (Char → Char) → Char → Char
lower_char table c =
    if is_upper_ascii (code c)
    then char_or "abcdefghijklmnopqrstuvwxyz" (code c - b'A') c
    else if ltb (code c) 0x80
    then c
    else table c

-- `strings.ToLower`.
unfoldable pub to_lower : (Char → Char) → String → String
to_lower table String.[] = String.[]
to_lower table (String.◌∷◌ c s) = String.◌∷◌ (lower_char table c) (to_lower table s)

to_lower_test : to_lower (λ c. c) "GrOwth 9z" ≡ "growth 9z"
unfolding to_lower
to_lower_test = refl
