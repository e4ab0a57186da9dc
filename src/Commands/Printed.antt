-- ===== src/Commands/Printed.antt =====
-- The id that extension/tools/cmd/register-extension/main.go prints, as the checks read it from
-- `extension.env`.
use mindorr.Prelude.{
  ℕ, zero, suc, ◌+◌, ◌*◌, ◌/◌, ◌%◌, ◌-◌, ◌^◌, ◌<◌, true, false, String, ◌≡◌, refl, ◌∙◌, ap, arith,
  eqb,
}
use mindorr.Text.Hex.{hex_digit, hex_value-hex_digit}
use mindorr.Checks.EnvFile.{hex_digits, is_extension_id}
use mindorr.Checks.Registration.{number_of_hex, extension_number}

-- The digits of `n` in front of `acc`, if it is not 0; the fuel `n` is enough, since `n / 16` falls.
unfoldable pub more_hex : (fuel n : ℕ) → String → String
more_hex zero n acc = acc
more_hex (suc fuel) n acc = elim (eqb n 0) [
  | true ↦ acc
  | false ↦ more_hex fuel (n / 16) (String.◌∷◌ (hex_digit (n % 16)) acc)
]

-- `%0kx`: the last `k` digits in front of `acc`, zeros included, and those before them if there are any.
unfoldable pub pad_hex : (k n : ℕ) → String → String
unfolding more_hex
pad_hex zero n acc = more_hex n n acc
pad_hex (suc k) n acc = pad_hex k (n / 16) (String.◌∷◌ (hex_digit (n % 16)) acc)

-- `fmt.Sprintf("0x%064x", extensionID)`.
unfoldable pub extension_id_text : ℕ → String
unfolding pad_hex
extension_id_text id = String.◌∷◌ "0" (String.◌∷◌ "x" (pad_hex 64 id ""))

-- The numbers of `k` digits.
abbrev pub sixteens : ℕ → ℕ
sixteens zero = 1
sixteens (suc k) = 16 * sixteens k

hex_digits-hex_digit :
    (j n : ℕ) (acc : String)
    → n < 16
    → hex_digits (suc j) (String.◌∷◌ (hex_digit n) acc) ≡ hex_digits j acc
unfolding hex_digits
hex_digits-hex_digit j n acc h =
    let value = hex_value-hex_digit n h in
    let less : suc j - 1 ≡ j = omega arith in rw (value, less) (ground arith)

hex_digits-pad_hex :
    (k j n : ℕ) (acc : String)
    → n < sixteens k
    → hex_digits (k + j) (pad_hex k n acc) ≡ hex_digits j acc
unfolding pad_hex
hex_digits-pad_hex zero j n acc h =
    let nothing : n ≡ 0 = omega (arith, h) in
    let plain : 0 + j ≡ j = omega arith in rw (nothing, plain) refl
hex_digits-pad_hex (suc k) j n acc h =
    let shift : suc k + j ≡ k + suc j = omega arith in
    rw shift (
      hex_digits-pad_hex k (suc j) (n / 16) (String.◌∷◌ (hex_digit (n % 16)) acc) (omega (arith, h))
      ∙ hex_digits-hex_digit j (n % 16) acc (omega arith))

number_of_hex-hex_digit :
    (u n : ℕ) (acc : String)
    → n < 16
    → number_of_hex u (String.◌∷◌ (hex_digit n) acc) ≡ number_of_hex (u * 16 + n) acc
unfolding number_of_hex
number_of_hex-hex_digit u n acc h = let value = hex_value-hex_digit n h in rw value refl

number_of_hex-pad_hex :
    (k v n : ℕ) (acc : String)
    → n < sixteens k
    → number_of_hex v (pad_hex k n acc) ≡ number_of_hex (v * sixteens k + n) acc
unfolding pad_hex
number_of_hex-pad_hex zero v n acc h =
    let nothing : n ≡ 0 = omega (arith, h) in
    let same : v * 1 + 0 ≡ v = omega arith in rw (nothing, same) refl
number_of_hex-pad_hex (suc k) v n acc h =
    number_of_hex-pad_hex k v (n / 16) (String.◌∷◌ (hex_digit (n % 16)) acc) (omega (arith, h))
    ∙ number_of_hex-hex_digit (v * sixteens k + n / 16) (n % 16) acc (omega arith)
    ∙ ap (λ u. number_of_hex u acc) (omega arith)

hex_digits-nil : hex_digits 0 "" ≡ true
unfolding hex_digits
hex_digits-nil = refl

number_of_hex-nil : (u : ℕ) → number_of_hex u "" ≡ u
unfolding number_of_hex
number_of_hex-nil u = refl

pad_hex-digits : (id : ℕ) → id < 2 ^ 256 → hex_digits 64 (pad_hex 64 id "") ≡ true
pad_hex-digits id h = hex_digits-pad_hex 64 0 id "" h ∙ hex_digits-nil

pad_hex-number : (id : ℕ) → id < 2 ^ 256 → number_of_hex 0 (pad_hex 64 id "") ≡ id
pad_hex-number id h =
    number_of_hex-pad_hex 64 0 id "" h ∙ number_of_hex-nil (0 * sixteens 64 + id) ∙ omega arith

-- The printed id of an extension is well formed, and is read as the id; ids have 256 bits.
pub extension_id_text-extension_number :
    (id : ℕ)
    → id < 2 ^ 256
    → (is_extension_id (extension_id_text id) ≡ true)
      × (extension_number (extension_id_text id) ≡ id)
unfolding is_extension_id extension_number extension_id_text
extension_id_text-extension_number id h = (pad_hex-digits id h, pad_hex-number id h)
