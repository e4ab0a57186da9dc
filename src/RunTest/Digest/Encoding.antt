-- ===== src/RunTest/Digest/Encoding.antt =====
-- What the hashed bytes of an allocation are: the words of the ABI.
use mindorr.Prelude.{
  ℕ, zero, suc, ◌+◌, ◌-◌, ◌*◌, ◌/◌, ◌%◌, ◌^◌, ◌≤◌, ◌<◌, List, [], ◌∷◌, ◌++◌, length, replicate, eqb,
  ◌≡◌, refl, ap, ap₂, sym, ◌∙◌, arith, All, Bool-cases, inl, inr,
}
use mindorr.Text.Hex.{IsByte}
use mindorr.Checks.Deploy.{Address}
use mindorr.RunTest.Digest.{bytes_from, big_bytes, Padding, action_input}

-- The number that bytes stand for, the highest first, behind the number `v`.
abbrev value_from : ℕ → List ℕ → ℕ
value_from v [] = v
value_from v (b ∷ bs) = value_from (v * 256 + b) bs

abbrev pub value : List ℕ → ℕ
value bs = value_from 0 bs

-- `k` bytes of a number in front of `acc`, the highest first.
abbrev word_from : ℕ → ℕ → List ℕ → List ℕ
word_from zero n acc = acc
word_from (suc k) n acc = word_from k (n / 256) (n % 256 ∷ acc)

-- A word of the ABI: 32 bytes, the highest first.
abbrev pub abi_word : ℕ → List ℕ
abi_word n = word_from 32 n []

-- `abi.encode` of values that take one word each.
abbrev pub abi_encode : List ℕ → List ℕ
abi_encode [] = []
abi_encode (n ∷ ns) = abi_word n ++ abi_encode ns

-- What `LeftPadBytes` does: zeros in front up to the length, and nothing to what is as long.
abbrev pub Pads : Padding → Type 0
Pads h = (bs : List ℕ) (l : ℕ) → h.left_pad bs l ≡ replicate (l - length bs) 0 ++ bs

length-word_from : (k n : ℕ) (acc : List ℕ) → length (word_from k n acc) ≡ k + length acc
length-word_from zero n acc = omega arith
length-word_from (suc k) n acc = omega (arith, length-word_from k (n / 256) (n % 256 ∷ acc))

replicate_snoc : (k : ℕ) (acc : List ℕ) → replicate k 0 ++ (0 ∷ acc) ≡ 0 ∷ (replicate k 0 ++ acc)
replicate_snoc zero acc = refl
replicate_snoc (suc k) acc = ap (λ l. 0 ∷ l) (replicate_snoc k acc)

word_from_zero : (k : ℕ) (acc : List ℕ) → word_from k 0 acc ≡ replicate k 0 ++ acc
word_from_zero zero acc = refl
word_from_zero (suc k) acc = word_from_zero k (0 ∷ acc) ∙ replicate_snoc k acc

append_nil : (l : List ℕ) → l ++ [] ≡ l
append_nil [] = refl
append_nil (x ∷ l) = ap (λ t. x ∷ t) (append_nil l)

-- The word of the number of some bytes begins with the word of what is in front of them.
word_from-value_from :
    (bs : List ℕ) (j k v : ℕ) (acc : List ℕ)
    → All IsByte bs
    → j ≡ length bs + k
    → word_from j (value_from v bs) acc ≡ word_from k v (bs ++ acc)
word_from-value_from [] j k v acc h e =
    let same : j ≡ k = omega (arith, e) in ap (λ i. word_from i v acc) same
word_from-value_from (b ∷ bs) j k v acc (hb, h) e =
    let high : (v * 256 + b) / 256 ≡ v = omega (arith, hb) in
    let low : (v * 256 + b) % 256 ≡ b = omega (arith, hb) in
    word_from-value_from bs j (suc k) (v * 256 + b) acc h (omega (arith, e))
    ∙ ap₂ (λ x y. word_from k x (y ∷ (bs ++ acc))) high low

padded_word :
    (h : Padding)
    → Pads h
    → (bs : List ℕ) → All IsByte bs
    → length bs ≤ 32
    → h.left_pad bs 32 ≡ abi_word (value bs)
padded_word h pads bs bytes fits =
    pads bs 32
    ∙ sym (
        word_from-value_from bs 32 (32 - length bs) 0 [] bytes (omega (arith, fits))
        ∙ word_from_zero (32 - length bs) (bs ++ [])
        ∙ ap (λ l. replicate (32 - length bs) 0 ++ l) (append_nil bs))

value_from-bytes_from :
    (fuel n : ℕ) (acc : List ℕ) → n ≤ fuel → value_from 0 (bytes_from fuel n acc) ≡ value_from n acc
unfolding bytes_from
value_from-bytes_from zero n acc h = ap (λ k. value_from k acc) (omega (arith, h))
value_from-bytes_from (suc fuel) n acc h = elim (Bool-cases (eqb n 0)) [
  | inl e ↦ rw (bytes_from, e) (let z : 0 ≡ n = ground arith in ap (λ k. value_from k acc) z)
  | inr e ↦
      let back : n / 256 * 256 + n % 256 ≡ n = omega arith in
      let low : n / 256 ≤ fuel = ground arith in
      rw (bytes_from, e)
        (value_from-bytes_from fuel (n / 256) (n % 256 ∷ acc) low ∙ ap (λ k. value_from k acc) back)
]

value-big_bytes : (n : ℕ) → value (big_bytes n) ≡ n
unfolding big_bytes
value-big_bytes n = value_from-bytes_from n n [] (omega arith)

bytes_from-IsByte :
    (fuel n : ℕ) (acc : List ℕ) → All IsByte acc → All IsByte (bytes_from fuel n acc)
unfolding bytes_from
bytes_from-IsByte zero n acc h = h
bytes_from-IsByte (suc fuel) n acc h = elim (Bool-cases (eqb n 0)) [
  | inl e ↦ rw (bytes_from, e) h
  | inr e ↦ rw (bytes_from, e) (bytes_from-IsByte fuel (n / 256) (n % 256 ∷ acc) (omega arith, h))
]

big_bytes-IsByte : (n : ℕ) → All IsByte (big_bytes n)
unfolding big_bytes
big_bytes-IsByte n = bytes_from-IsByte n n [] tt

-- One more than the highest number of `k` bytes.
abbrev room : ℕ → ℕ
room zero = 1
room (suc k) = 256 * room k

length-bytes_from :
    (fuel k n : ℕ) (acc : List ℕ) → n < room k → length (bytes_from fuel n acc) ≤ k + length acc
unfolding bytes_from
length-bytes_from zero k n acc h = omega arith
length-bytes_from (suc fuel) zero n acc h = let z : n ≡ 0 = omega (arith, h) in rw z (omega arith)
length-bytes_from (suc fuel) (suc k) n acc h = elim (Bool-cases (eqb n 0)) [
  | inl e ↦ rw (bytes_from, e) (omega arith)
  | inr e ↦
      rw (bytes_from, e)
        (omega (arith, length-bytes_from fuel k (n / 256) (n % 256 ∷ acc) (omega (arith, h))))
]

length-big_bytes : (n : ℕ) → n < 2 ^ 256 → length (big_bytes n) ≤ 32
unfolding big_bytes
length-big_bytes n h = omega (arith, length-bytes_from n 32 n [] h)

-- What an allocation is made of: a byte, two addresses and an unsigned number of 256 bits.
pub record IsAction (kind : ℕ) (asset : Address) (amount : ℕ) (dest : Address) : Type 0 where
  pub kind_byte : kind < 256
  pub asset_bytes : All IsByte asset × (length asset ≡ 20)
  pub amount_word : amount < 2 ^ 256
  pub dest_bytes : All IsByte dest × (length dest ≡ 20)

-- The hashed bytes of an allocation are the ABI encoding of its kind, its asset, its amount and its
-- destination, if the kind is a byte, the addresses are 20 bytes and the amount is below 2 ^ 256.
pub action_input-abi_encode :
    (h : Padding) (pads : Pads h) (kind : ℕ) (asset : Address) (amount : ℕ) (dest : Address)
    → IsAction kind asset amount dest
    → action_input h kind asset amount dest
      ≡ abi_encode (kind ∷ value asset ∷ amount ∷ value dest ∷ [])
unfolding action_input
action_input-abi_encode h pads kind asset amount dest a =
    let same : value (kind ∷ []) ≡ kind = omega arith in
    let e1 = padded_word h pads (kind ∷ []) (a.kind_byte, tt) (omega arith) ∙ ap abi_word same in
    let e2 = padded_word h pads asset a.asset_bytes.0 (omega (arith, a.asset_bytes.1)) in
    let e3 =
      padded_word h pads (big_bytes amount) (big_bytes-IsByte amount)
        (length-big_bytes amount a.amount_word)
      ∙ ap abi_word (value-big_bytes amount) in
    let e4 = padded_word h pads dest a.dest_bytes.0 (omega (arith, a.dest_bytes.1)) in
    ap₂ (λ x y. x ++ y) e1
      (ap₂ (λ x y. x ++ y) e2 (ap₂ (λ x y. x ++ y) e3 (e4 ∙ sym (append_nil _))))
