-- ===== src/Text/Decimal.antt =====
-- `%d` of a number that is not negative.
use mindorr.Prelude.{ℕ, zero, suc, ◌/◌, ◌%◌, true, false, Char, String, eqb, ◌≡◌, refl}
use mindorr.Text.{char_or}

abbrev digit : ℕ → Char
digit n = char_or "0123456789" n "0"

-- The digits of `n` in front of `acc`; the fuel `n + 1` is enough, since `n / 10` falls.
decimal_from : ℕ → ℕ → String → String
decimal_from zero n acc = acc
decimal_from (suc fuel) n acc = elim (eqb (n / 10) 0) [
  | true ↦ String.◌∷◌ (digit (n % 10)) acc
  | false ↦ decimal_from fuel (n / 10) (String.◌∷◌ (digit (n % 10)) acc)
]

unfoldable pub decimal : ℕ → String
unfolding decimal_from
decimal n = decimal_from (suc n) n ""

decimal_test : decimal 90210 ≡ "90210"
unfolding decimal
decimal_test = refl

decimal_zero : decimal 0 ≡ "0"
unfolding decimal
decimal_zero = refl
