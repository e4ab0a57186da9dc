-- ===== src/RunTest/Digest.antt =====
-- The digest that an allocation is signed under: `actionDigest`, `normalizeV` and `hexToBytes` of
-- extension/tools/cmd/run-test/main.go, with the two methods of `big.Int` that they need.
pub mod Encoding
use mindorr.Prelude.{
  ℕ, zero, suc, ◌+◌, ◌-◌, ◌*◌, ◌/◌, ◌%◌, ◌&&◌, Bool, true, false, Option, none, some, List, [], ◌∷◌,
  ◌++◌, String, code, leb, eqb, length, if◌then◌else◌, ◌≡◌, refl, Result, ok, err,
}
use mindorr.Wire.{Hash}
use mindorr.Checks.Deploy.{Address}
use mindorr.Registration.Revert.{trim_0x}
use mindorr.Text.Hex.{decode_hex}

-- `x.Bytes()` of a `big.Int`: the bytes of the absolute value, the highest first, without zeros in
-- front; the fuel `n` is enough, since `n / 256` falls.
unfoldable pub bytes_from : ℕ → ℕ → List ℕ → List ℕ
bytes_from zero n acc = acc
bytes_from (suc fuel) n acc = elim (eqb n 0) [
  | true ↦ acc
  | false ↦ bytes_from fuel (n / 256) (n % 256 ∷ acc)
]

unfoldable pub big_bytes : ℕ → List ℕ
unfolding bytes_from
big_bytes n = bytes_from n n []

-- The digits of `SetString(s, 10)`, behind what was read.
abbrev digits_from : ℕ → String → Option ℕ
digits_from n String.[] = some n
digits_from n (String.◌∷◌ c s) =
    let rest = digits_from (n * 10 + (code c - b'0')) s in
    if leb b'0' (code c) && leb (code c) b'9' then rest else none

abbrev some_digits : String → Option ℕ
some_digits String.[] = none
some_digits (String.◌∷◌ c s) = digits_from 0 (String.◌∷◌ c s)

-- `new(big.Int).SetString(s, 10)`: the absolute value, which is all that `Bytes` gives of it.
unfoldable pub set_string : String → Option ℕ
set_string String.[] = none
set_string (String.◌∷◌ c s) =
    if eqb (code c) b'+'
    then some_digits s
    else if eqb (code c) b'-'
    then some_digits s
    else some_digits (String.◌∷◌ c s)

set_string_test : set_string "5000000000" ≡ some 5000000000
unfolding set_string
set_string_test = refl

-- `out[64] -= 27` of a list of 65 bytes.
abbrev lower_last : ℕ → List ℕ → List ℕ
lower_last i [] = []
lower_last zero (b ∷ bs) = (if leb 27 b then b - 27 else b) ∷ bs
lower_last (suc i) (b ∷ bs) = b ∷ lower_last i bs

-- `normalizeV`.
abbrev pub normalize_v : List ℕ → List ℕ
normalize_v sig = if eqb (length sig) 65 then lower_last 64 sig else sig

-- `hexToBytes`.
unfoldable pub hex_to_bytes : String → Option (List ℕ)
unfolding decode_hex
hex_to_bytes h = decode_hex (trim_0x h)

-- `common.LeftPadBytes` and `crypto.Keccak256Hash`.
pub record Padding : Type 0 where
  pub left_pad : List ℕ → ℕ → List ℕ
  pub keccak : List ℕ → Hash

module _ (h : Padding) where
  -- The bytes that `actionDigest` hashes.
  unfoldable pub action_input : ℕ → Address → ℕ → Address → List ℕ
  unfolding big_bytes
  action_input kind asset amount dest =
      h.left_pad (kind ∷ []) 32
      ++ (h.left_pad asset 32 ++ (h.left_pad (big_bytes amount) 32 ++ h.left_pad dest 32))

  -- `actionDigest`.
  unfoldable pub action_digest : ℕ → Address → ℕ → Address → Hash
  unfolding action_input
  action_digest kind asset amount dest = h.keccak (action_input kind asset amount dest)
