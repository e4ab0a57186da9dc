-- ===== src/Wire.antt =====
-- Texts packed into 32 bytes: `toHash` of extension/tools/cmd/live-server/main.go and
-- `StringToBytes32` of extension/tools/pkg/fccutils/registration.go. A hash is a list of bytes.
pub mod Packing
mod Tests
use mindorr.Prelude.{
  false, arith, ◌&&◌, ◌↔◌, eqb, true, ℕ, ◌+◌, ◌-◌, ◌*◌, ◌/◌, ◌%◌, List, [], ◌∷◌, ◌++◌, length, take,
  concat, replicate, String, code, ltb, if◌then◌else◌, Result, ok, err, ◌≡◌, refl, Bool,
}

abbrev pub Hash : Type 0
Hash = List ℕ

-- The UTF-8 bytes of a code point.
abbrev pub utf8_char : ℕ → List ℕ
utf8_char c =
    if ltb c 0x80
    then c ∷ []
    else if ltb c 0x800
    then (0xc0 + c / 64) ∷ (0x80 + c % 64) ∷ []
    else if ltb c 0x10000
    then (0xe0 + c / 4096) ∷ (0x80 + c / 64 % 64) ∷ (0x80 + c % 64) ∷ []
    else (0xf0 + c / 262144) ∷ (0x80 + c / 4096 % 64) ∷ (0x80 + c / 64 % 64) ∷ (0x80 + c % 64) ∷ []

-- `[]byte(s)`.
unfoldable pub utf8 : String → List ℕ
utf8 String.[] = []
utf8 (String.◌∷◌ c s) = utf8_char (code c) ++ utf8 s

-- `var h [32]byte; copy(h[:], b)`: what does not fit is left out, what is not written stays 0.
abbrev pub copy_into_32 : List ℕ → Hash
copy_into_32 b = take 32 b ++ replicate (32 - length (take 32 b)) 0

unfoldable pub to_hash : String → Hash
unfolding utf8
to_hash s = let b = utf8 s in copy_into_32 (if ltb 32 (length b) then take 32 b else b)

-- `%q` of the version is written as the text itself.
unfoldable pub string_to_bytes32 : String → Result Hash
unfolding utf8
string_to_bytes32 s =
    if ltb 32 (length (utf8 s))
    then err (concat ("version " ∷ s ∷ " exceeds 32 bytes" ∷ []))
    else ok (copy_into_32 (utf8 s))

to_hash_test : to_hash "VAULT" ≡ 86 ∷ 65 ∷ 85 ∷ 76 ∷ 84 ∷ replicate 27 0
unfolding to_hash
to_hash_test = refl

-- `==` on hashes and addresses.
abbrev pub same_hash : Hash → Hash → Bool
same_hash [] [] = true
same_hash (x ∷ xs) (y ∷ ys) = eqb x y && same_hash xs ys
same_hash _ _ = false

pub same_hash_iff : (xs ys : List ℕ) → (same_hash xs ys ≡ true) ↔ (xs ≡ ys)
same_hash_iff [] [] = ground arith
same_hash_iff [] (y ∷ ys) = ground arith
same_hash_iff (x ∷ xs) [] = ground arith
same_hash_iff (x ∷ xs) (y ∷ ys) = ground (arith, same_hash_iff xs ys)
