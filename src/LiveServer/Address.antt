-- ===== src/LiveServer/Address.antt =====
-- `validAddr` of extension/tools/cmd/live-server/main.go.
use mindorr.Prelude.{
  ℕ, Bool, true, false, ◌&&◌, String, code, eqb, if◌then◌else◌, ◌≡◌, refl, ap, ◌∙◌, ◌↔◌, ◌+◌,
  Option, none, some, length, eqb_iff, arith, List,
}
use mindorr.Text.{byte_len}
use mathlib.Core.Bool.{and-eq-true_iff}
use text.Mathlib.TextEquality.{Char-path}
use mindorr.Text.Hex.{decode_hex, byte_len_of_decode_hex}

-- `a[2:]` where the text has the prefix "0x".
unfoldable pub strip_0x : String → Option String
strip_0x (String.◌∷◌ c (String.◌∷◌ d s)) =
    if eqb (code c) b'0' && eqb (code d) b'x' then some s else none
strip_0x _ = none

abbrev decodes : Option (List ℕ) → Bool
decodes none = false
decodes (some bs) = true

-- The length of the whole text, and the digits behind the prefix.
abbrev digits_ok : ℕ → Option String → Bool
digits_ok len none = false
digits_ok len (some digits) = eqb len 42 && decodes (decode_hex digits)

-- The prefix, the length in bytes, and the digits behind the prefix.
unfoldable pub valid_addr : String → Bool
unfolding strip_0x decode_hex byte_len
valid_addr a = digits_ok (byte_len a) (strip_0x a)

valid_addr_test : valid_addr "0xa11a000100000000000000000000000000000000" ≡ true
unfolding valid_addr
valid_addr_test = refl

valid_addr_short : valid_addr "0xa11a" ≡ false
unfolding valid_addr
valid_addr_short = refl

-- Twenty bytes behind the prefix.
abbrev pub IsAddress : String → Type 0
IsAddress a =
    (digits : String) × (bs : List ℕ) × (a ≡ String.◌∷◌ "0" (String.◌∷◌ "x" digits))
    × (decode_hex digits ≡ some bs)
    × (length bs ≡ 20)

pub strip_0x-eq-some :
    (a : String) {s : String} → strip_0x a ≡ some s → a ≡ String.◌∷◌ "0" (String.◌∷◌ "x" s)
unfolding strip_0x
strip_0x-eq-some (String.◌∷◌ c (String.◌∷◌ d t)) {s} h =
    let zero : code c ≡ code "0" = ground arith in
    let x : code d ≡ code "x" = ground arith in
    let rest : t ≡ s = ground arith in
    λ i. String.◌∷◌ (Char-path c "0" zero i) (String.◌∷◌ (Char-path d "x" x i) (rest i))
strip_0x-eq-some (String.◌∷◌ c String.[]) h = cc
strip_0x-eq-some String.[] h = cc

decodes-eq-true : (o : Option (List ℕ)) → decodes o ≡ true → (bs : List ℕ) × (o ≡ some bs)
decodes-eq-true none h = cc
decodes-eq-true (some bs) h = (bs, refl)

digits_ok-eq-true :
    (len : ℕ) (o : Option String)
    → digits_ok len o ≡ true
    → (s : String) × (bs : List ℕ) × (o ≡ some s) × (len ≡ 42) × (decode_hex s ≡ some bs)
digits_ok-eq-true len none h = cc
digits_ok-eq-true len (some s) h =
    let (measured, decoded) = (and-eq-true_iff _ _).0 h in
    let (bs, d) = decodes-eq-true (decode_hex s) decoded in
    (s, bs, refl, (eqb_iff len 42).0 measured, d)

byte_len_0x : (s : String) → byte_len (String.◌∷◌ "0" (String.◌∷◌ "x" s)) ≡ byte_len s + 2
unfolding byte_len
byte_len_0x s = omega arith

pub strip_0x_0x : (s : String) → strip_0x (String.◌∷◌ "0" (String.◌∷◌ "x" s)) ≡ some s
unfolding strip_0x
strip_0x_0x s = refl

-- An address is accepted exactly when it is "0x" followed by digits that decode to twenty bytes.
pub valid_addr_iff : (a : String) → (valid_addr a ≡ true) ↔ IsAddress a
unfolding valid_addr
valid_addr_iff a = (to, from)
  where
    to : valid_addr a ≡ true → IsAddress a
    to h =
        let (s, bs, tail, measured, d) = digits_ok-eq-true (byte_len a) (strip_0x a) h in
        let whole = strip_0x-eq-some a tail in
        let len : byte_len a ≡ byte_len s + 2 = ap byte_len whole ∙ byte_len_0x s in
        (s, bs, whole, d, omega (arith, byte_len_of_decode_hex s bs d))

    from : IsAddress a → valid_addr a ≡ true
    from (s, bs, e, d, n) =
        let len : byte_len a ≡ 42 =
          ap byte_len e ∙ byte_len_0x s ∙ omega (arith, byte_len_of_decode_hex s bs d) in
        let tail : strip_0x a ≡ some s = ap strip_0x e ∙ strip_0x_0x s in rw (len, tail, d)
