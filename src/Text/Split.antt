-- ===== src/Text/Split.antt =====
-- `strings.SplitN(line, "=", 2)`, and the lines that a `bufio.Scanner` hands out.
use mindorr.Prelude.{
  ℕ, true, false, String, code, ltb, eqb, if◌then◌else◌, ◌≡◌, refl, Option, none, some, List, [],
  ◌∷◌,
}
use Prim.Native.String
use mindorr.Text.{is_empty, byte_len}

-- The two parts around the first "=", if there is one.
unfoldable pub split_equals : String → Option (String × String)
split_equals String.[] = none
split_equals (String.◌∷◌ c s) =
    let rest = split_equals s in
    if eqb (code c) b'='
    then some ("", s)
    else elim rest [ none ↦ none | some (k, v) ↦ some (String.◌∷◌ c k, v) ]

split_equals_test : split_equals "a=b=c" ≡ some ("a", "b=c")
unfolding split_equals
split_equals_test = refl

-- One "\r" at the end of a line is dropped.
unfoldable pub drop_cr : String → String
drop_cr String.[] = ""
drop_cr (String.◌∷◌ c s) =
    let rest = drop_cr s in
    elim (is_empty s) [
      | true ↦ if eqb (code c) b'\r' then "" else String.◌∷◌ c s
      | false ↦ String.◌∷◌ c rest
    ]

-- `bufio.MaxScanTokenSize`: at a line that does not fit in the buffer the scanner stops.
abbrev pub max_scan_token_size : ℕ
max_scan_token_size = 65536

-- The scanner's lines, with what the open line holds so far.
lines_from : String → String → List String
lines_from cur String.[] =
    if is_empty cur
    then []
    else if ltb (byte_len cur) max_scan_token_size
    then drop_cr cur ∷ []
    else []
lines_from cur (String.◌∷◌ c s) =
    let closed = lines_from "" s in
    let longer = lines_from (String.◌++◌ cur (String.◌∷◌ c String.[])) s in
    if eqb (code c) b'\n'
    then if ltb (byte_len cur) max_scan_token_size then drop_cr cur ∷ closed else []
    else longer

-- What `scanner.Scan()` and `scanner.Text()` give, in order.
unfoldable pub scan_lines : String → List String
unfolding lines_from drop_cr byte_len
scan_lines text = lines_from "" text

scan_lines_test : scan_lines "a=1\r\n\nb" ≡ "a=1" ∷ "" ∷ "b" ∷ []
unfolding scan_lines
scan_lines_test = refl
