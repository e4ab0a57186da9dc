-- ===== src/Text/Search.antt =====
-- `strings.EqualFold`, and texts inside texts: `strings.HasPrefix` and `strings.Contains`.
use mindorr.Prelude.{Bool, true, false, Char, code, String, eqb, if◌then◌else◌, ◌==◌, ◌≡◌, refl}
use mindorr.Text.{is_empty, to_lower}

-- `strings.EqualFold`.
unfoldable pub equal_fold : (Char → Char) → String → String → Bool
unfolding to_lower
equal_fold fold s t = to_lower fold s == to_lower fold t

-- `strings.Contains`.
abbrev starts_with : String → String → Bool
starts_with String.[] s = true
starts_with (String.◌∷◌ c p) String.[] = false
starts_with (String.◌∷◌ c p) (String.◌∷◌ d s) =
    let rest = starts_with p s in if eqb (code c) (code d) then rest else false

unfoldable pub contains_text : String → String → Bool
contains_text String.[] p = is_empty p
contains_text (String.◌∷◌ c s) p =
    let rest = contains_text s p in if starts_with p (String.◌∷◌ c s) then true else rest

contains_text_test : contains_text "a: already set (x)" "already set" ≡ true
unfolding contains_text
contains_text_test = refl
