-- ===== src/Text/Hex.antt =====
-- `encoding/hex`: bytes to lower-case digits and back.
use mindorr.Prelude.{
  ℕ, zero, suc, ◌+◌, ◌-◌, ◌*◌, ◌/◌, ◌%◌, ◌<◌, ◌&&◌, Char, String, code, leb, if◌then◌else◌, ◌≡◌,
  refl, Option, none, some, List, [], ◌∷◌, arith, All, length,
}
use native.Mathlib.Decide.{ℕ_discrete}
use mindorr.Text.{char_or, utf8_len, byte_len}

-- The value of a digit in either case.
unfoldable pub hex_value : ℕ → Option ℕ
hex_value c =
    if leb b'0' c && leb c b'9'
    then some (c - b'0')
    else if leb b'a' c && leb c b'f'
    then some (c - b'a' + 10)
    else if leb b'A' c && leb c b'F'
    then some (c - b'A' + 10)
    else none

abbrev pub pair_value : Option ℕ → Option ℕ → Option (List ℕ) → Option (List ℕ)
pair_value (some hi) (some lo) (some bs) = some ((hi * 16 + lo) ∷ bs)
pair_value _ _ _ = none

-- `hex.DecodeString`; every error is `none`. Two digits a byte: an odd length is an error.
unfoldable pub decode_hex : String → Option (List ℕ)
unfolding hex_value
decode_hex String.[] = some []
decode_hex (String.◌∷◌ a String.[]) = none
decode_hex (String.◌∷◌ a (String.◌∷◌ b s)) =
    pair_value (hex_value (code a)) (hex_value (code b)) (decode_hex s)

abbrev pub hex_digit : ℕ → Char
hex_digit n = char_or "0123456789abcdef" n "0"

-- `hex.EncodeToString`.
unfoldable pub encode_hex : List ℕ → String
encode_hex [] = String.[]
encode_hex (b ∷ bs) =
    String.◌∷◌ (hex_digit (b / 16)) (String.◌∷◌ (hex_digit (b % 16)) (encode_hex bs))

-- One fact for each number below a bound.
abbrev EachBelow : (ℕ → Type 0) → ℕ → Type 0
EachBelow P zero = Unit
EachBelow P (suc n) = EachBelow P n × P n

below_of_each : (P : ℕ → Type 0) (bound : ℕ) (m : ℕ) → EachBelow P bound → m < bound → P m
below_of_each P zero m facts h = elim h [ ]
below_of_each P (suc n) m (lower, last) h = elim (ℕ_discrete m n) [
  | yes same ↦ rw same last
  | no differs ↦ below_of_each P n m lower (omega arith)
]

pub hex_value-hex_digit : (n : ℕ) → n < 16 → hex_value (code (hex_digit n)) ≡ some n
unfolding hex_value
hex_value-hex_digit n h =
    below_of_each (λ m. hex_value (code (hex_digit m)) ≡ some m) 16 n
      (
        (
          (
            (
              (
                (
                  (
                    (((((((((tt, refl), refl), refl), refl), refl), refl), refl), refl), refl),
                    refl,
                  ),
                  refl,
                ),
                refl,
              ),
              refl,
            ),
            refl,
          ),
          refl,
        ),
        refl,
      )
      h

abbrev pub IsByte : ℕ → Type 0
IsByte b = b < 256

-- Decoding what was encoded gives the bytes back.
pub decode_hex-encode_hex : (bs : List ℕ) → All IsByte bs → decode_hex (encode_hex bs) ≡ some bs
unfolding decode_hex encode_hex
decode_hex-encode_hex [] h = refl
decode_hex-encode_hex (b ∷ bs) (hb, h) =
    rw
      (
        hex_value-hex_digit (b / 16) (omega arith),
        hex_value-hex_digit (b % 16) (omega arith),
        decode_hex-encode_hex bs h,
      )
      (ground arith)

-- A hex digit is one byte of text.
pub utf8_len_of_hex_value : (c : ℕ) {v : ℕ} → hex_value c ≡ some v → utf8_len c ≡ 1
unfolding hex_value
utf8_len_of_hex_value c h = ground arith

pub pair_value-eq-some :
    (x y : Option ℕ) (r : Option (List ℕ)) {bs : List ℕ}
    → pair_value x y r ≡ some bs
    → (hi lo : ℕ) × (rest : List ℕ) × (x ≡ some hi)
      × (y ≡ some lo)
      × (r ≡ some rest)
      × (bs ≡ (hi * 16 + lo) ∷ rest)
pair_value-eq-some (some hi) (some lo) (some rest) h =
    (hi, lo, rest, refl, refl, refl, ground arith)
pair_value-eq-some (some hi) (some lo) none h = cc
pair_value-eq-some (some hi) none r h = cc
pair_value-eq-some none y r h = cc

-- Two bytes of text for each byte decoded.
pub byte_len_of_decode_hex :
    (s : String) (bs : List ℕ) → decode_hex s ≡ some bs → byte_len s ≡ 2 * length bs
unfolding decode_hex byte_len
byte_len_of_decode_hex String.[] bs h = let e : [] ≡ bs = ground arith in rw (← e) refl
byte_len_of_decode_hex (String.◌∷◌ a String.[]) bs h = cc
byte_len_of_decode_hex (String.◌∷◌ a (String.◌∷◌ b s)) bs h =
    let (hi, lo, rest, p, q, r, e) =
      pair_value-eq-some (hex_value (code a)) (hex_value (code b)) (decode_hex s) h in
    rw e (
      omega (
        arith,
        utf8_len_of_hex_value (code a) p,
        utf8_len_of_hex_value (code b) q,
        byte_len_of_decode_hex s rest r,
      ))
