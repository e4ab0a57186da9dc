-- ===== src/Text/Trim.antt =====
-- `strings.TrimSpace`, and when it changes a text.
use mindorr.Prelude.{
  ℕ, Bool, false, ◌&&◌, ◌||◌, String, code, leb, eqb, if◌then◌else◌, ◌≡◌, refl, inl, inr,
  Bool-cases,
}
use mindorr.Text.{is_empty}

-- `unicode.IsSpace`.
unfoldable pub is_space : ℕ → Bool
is_space c =
    (leb 9 c && leb c 13)
    || eqb c 0x20
    || eqb c 0x85
    || eqb c 0xa0
    || eqb c 0x1680
    || (leb 0x2000 c && leb c 0x200a)
    || eqb c 0x2028
    || eqb c 0x2029
    || eqb c 0x202f
    || eqb c 0x205f
    || eqb c 0x3000

unfoldable pub trim_left : String → String
trim_left String.[] = String.[]
trim_left (String.◌∷◌ c s) =
    let rest = trim_left s in if is_space (code c) then rest else String.◌∷◌ c s

unfoldable pub trim_right : String → String
trim_right String.[] = String.[]
trim_right (String.◌∷◌ c s) =
    let rest = trim_right s in
    if is_space (code c) && is_empty rest then String.[] else String.◌∷◌ c rest

unfoldable pub trim_space : String → String
unfolding trim_left trim_right is_space
trim_space s = trim_right (trim_left s)

trim_space_test : trim_space " \t a b\n" ≡ "a b"
unfolding trim_space
trim_space_test = refl

-- The text begins with no white space.
abbrev pub StartsClean : String → Type 0
StartsClean String.[] = Unit
StartsClean (String.◌∷◌ c s) = is_space (code c) ≡ false

pub trim_left-StartsClean : (s : String) → StartsClean (trim_left s)
unfolding trim_left
trim_left-StartsClean String.[] = tt
trim_left-StartsClean (String.◌∷◌ c s) = elim (Bool-cases (is_space (code c))) [
  | inl e ↦ rw e (trim_left-StartsClean s)
  | inr e ↦ rw e e
]

pub trim_left_of_StartsClean : (s : String) → StartsClean s → trim_left s ≡ s
unfolding trim_left
trim_left_of_StartsClean String.[] h = refl
trim_left_of_StartsClean (String.◌∷◌ c s) h = rw h

trim_right-StartsClean : (s : String) → StartsClean s → StartsClean (trim_right s)
unfolding trim_right
trim_right-StartsClean String.[] h = tt
trim_right-StartsClean (String.◌∷◌ c s) h = rw h h

trim_right_idempotent : (s : String) → trim_right (trim_right s) ≡ trim_right s
unfolding trim_right
trim_right_idempotent String.[] = refl
trim_right_idempotent (String.◌∷◌ c s) =
    elim (Bool-cases (is_space (code c) && is_empty (trim_right s))) [
      | inl e ↦ rw e
      | inr e ↦ rw e (rw (trim_right_idempotent s) (rw e))
    ]

pub trim_space_idempotent : (s : String) → trim_space (trim_space s) ≡ trim_space s
unfolding trim_space
trim_space_idempotent s =
    rw
      (trim_left_of_StartsClean (trim_right (trim_left s))
        (trim_right-StartsClean (trim_left s) (trim_left-StartsClean s)))
      (trim_right_idempotent (trim_left s))
