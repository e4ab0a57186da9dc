-- ===== src/Text/Clean.antt =====
-- Texts with no white space around them, and the lower case of a text that has some.
use mindorr.Prelude.{
  ℕ, zero, suc, Char, String, Bool, true, false, not, ◌&&◌, ◌-◌, ltb, ◌≡◌, refl, ◌∙◌, ap, sym, code,
  arith, Bool-cases, inl, inr,
}
use mindorr.Text.{is_empty, to_lower, lower_char, char_or, is_upper_ascii}
use mindorr.Text.Trim.{is_space, trim_right, trim_space, StartsClean, trim_left_of_StartsClean}

-- The text ends with no white space.
unfoldable pub ends_clean : String → Bool
unfolding trim_right
ends_clean String.[] = true
ends_clean (String.◌∷◌ c s) = not (is_space (code c) && is_empty (trim_right s)) && ends_clean s

trim_right_of_clean : (s : String) → ends_clean s ≡ true → trim_right s ≡ s
unfolding trim_right ends_clean
trim_right_of_clean String.[] h = refl
trim_right_of_clean (String.◌∷◌ c s) h =
    let last : (is_space (code c) && is_empty (trim_right s)) ≡ false = ground (arith, h) in
    let rest : ends_clean s ≡ true = ground (arith, h) in rw (last, trim_right_of_clean s rest) refl

pub trim_space_of_clean : (s : String) → StartsClean s → ends_clean s ≡ true → trim_space s ≡ s
unfolding trim_space
trim_space_of_clean s starts ends =
    ap trim_right (trim_left_of_StartsClean s starts) ∙ trim_right_of_clean s ends

-- Beyond ASCII, the table gives white space just for white space.
abbrev pub KeepsSpace : (Char → Char) → Type 0
KeepsSpace table =
    (c : Char) → ltb (code c) 0x80 ≡ false → is_space (code (table c)) ≡ is_space (code c)

-- No letter of the text is white space.
unfoldable no_space : String → Bool
no_space String.[] = true
no_space (String.◌∷◌ c s) = not (is_space (code c)) && no_space s

char_or-no_space :
    (s : String) (n : ℕ) (c : Char)
    → no_space s ≡ true
    → is_space (code c) ≡ false
    → is_space (code (char_or s n c)) ≡ false
unfolding no_space
char_or-no_space String.[] n c h k = k
char_or-no_space (String.◌∷◌ d s) zero c h k = ground (arith, h)
char_or-no_space (String.◌∷◌ d s) (suc n) c h k = char_or-no_space s n c (ground (arith, h)) k

abbrev letters : String
letters = "abcdefghijklmnopqrstuvwxyz"

letters-no_space : no_space letters ≡ true
unfolding is_space no_space
letters-no_space = refl

is_upper_ascii-is_space : (n : ℕ) → is_upper_ascii n ≡ true → is_space n ≡ false
unfolding is_space
is_upper_ascii-is_space n h = ground (arith, h)

module _ (table : Char → Char) (keeps : KeepsSpace table) where
  -- A letter is white space just if its lower case is.
  is_space-lower_char : (c : Char) → is_space (code (lower_char table c)) ≡ is_space (code c)
  is_space-lower_char c = elim (Bool-cases (is_upper_ascii (code c))) [
    | inl upper ↦
        let plain = is_upper_ascii-is_space (code c) upper in
        rw (upper, plain) (char_or-no_space letters (code c - b'A') c letters-no_space plain)
    | inr other ↦ elim (Bool-cases (ltb (code c) 0x80)) [
      | inl ascii ↦ rw (other, ascii) refl
      | inr beyond ↦ rw (other, beyond) (keeps c beyond)
    ]
  ]

  pub StartsClean-to_lower : (s : String) → StartsClean (to_lower table s) → StartsClean s
  unfolding to_lower
  StartsClean-to_lower String.[] h = tt
  StartsClean-to_lower (String.◌∷◌ c s) h = sym (is_space-lower_char c) ∙ h

  is_empty-trim_right :
      (s : String) → is_empty (trim_right (to_lower table s)) ≡ is_empty (trim_right s)
  unfolding to_lower trim_right
  is_empty-trim_right String.[] = refl
  is_empty-trim_right (String.◌∷◌ c s) =
      rw (is_space-lower_char c, is_empty-trim_right s)
        (elim (Bool-cases (is_space (code c) && is_empty (trim_right s))) [
          | inl e ↦ rw e refl
          | inr e ↦ rw e refl
        ])

  pub ends_clean-to_lower : (s : String) → ends_clean (to_lower table s) ≡ ends_clean s
  unfolding to_lower ends_clean
  ends_clean-to_lower String.[] = refl
  ends_clean-to_lower (String.◌∷◌ c s) =
      rw (is_space-lower_char c, is_empty-trim_right s, ends_clean-to_lower s) refl
