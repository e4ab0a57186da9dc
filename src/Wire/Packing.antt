-- ===== src/Wire/Packing.antt =====
-- Which texts the 32 bytes tell apart.
use mindorr.Prelude.{
  if◌then◌else◌, concat, ◌⊎◌, ℕ, zero, suc, ◌-◌, ◌≤◌, ◌<◌, List, [], ◌∷◌, ◌++◌, length, take,
  replicate, take_all, String, ltb, ok, err, ◌≡◌, ◌≢◌, refl, arith, All, ap, sym, ◌∙◌,
  length-append, length-take, length-replicate, Bool-cases, inl, inr, ltb_iff,
}
use mindorr.Wire.{utf8, copy_into_32, to_hash, string_to_bytes32}

-- No byte is 0.
abbrev pub HasNoNul : List ℕ → Type 0
HasNoNul = All (λ b. b ≢ 0)

length-copy_into_32 : (b : List ℕ) → length (copy_into_32 b) ≡ 32
length-copy_into_32 b = omega (
  arith,
  length-append (take 32 b) (replicate (32 - length (take 32 b)) 0),
  length-take 32 b,
  length-replicate {A = ℕ} (32 - length (take 32 b)) 0,
)

-- Padding with zeros can be undone where no byte is zero.
padded_inj :
    (a b : List ℕ) (m n : ℕ)
    → HasNoNul a
    → HasNoNul b
    → a ++ replicate m 0 ≡ b ++ replicate n 0
    → a ≡ b
padded_inj [] [] m n ha hb e = refl
padded_inj [] (y ∷ b) zero n ha hb e = cc
padded_inj [] (y ∷ b) (suc m) n ha hb e = absurd (hb.0 (ground arith))
padded_inj (x ∷ a) [] m zero ha hb e = cc
padded_inj (x ∷ a) [] m (suc n) ha hb e = absurd (ha.0 (ground arith))
padded_inj (x ∷ a) (y ∷ b) m n ha hb e = ground (arith, padded_inj a b m n ha.1 hb.1)

copy_into_32_of_short :
    (b : List ℕ) → length b ≤ 32 → copy_into_32 b ≡ b ++ replicate (32 - length b) 0
copy_into_32_of_short b h = ap (λ l. l ++ replicate (32 - length l) 0) (take_all 32 b h)

to_hash_of_short : (s : String) → length (utf8 s) ≤ 32 → to_hash s ≡ copy_into_32 (utf8 s)
unfolding to_hash
to_hash_of_short s h = ground (arith)

-- A hash has 32 bytes, whatever the text.
length-to_hash : (s : String) → length (to_hash s) ≡ 32
unfolding to_hash
length-to_hash s =
    length-copy_into_32 (if ltb 32 (length (utf8 s)) then take 32 (utf8 s) else utf8 s)

-- Two names that fit and hold no zero byte have one hash only if they are the same bytes.
pub to_hash_inj :
    (s t : String)
    → length (utf8 s) ≤ 32
    → length (utf8 t) ≤ 32
    → HasNoNul (utf8 s)
    → HasNoNul (utf8 t)
    → to_hash s ≡ to_hash t
    → utf8 s ≡ utf8 t
to_hash_inj s t hs ht ns nt e = padded_inj (utf8 s) (utf8 t) _ _ ns nt (
    sym (copy_into_32_of_short (utf8 s) hs)
    ∙ sym (to_hash_of_short s hs)
    ∙ e
    ∙ to_hash_of_short t ht
    ∙ copy_into_32_of_short (utf8 t) ht)

-- A version is packed as `toHash` packs it if it fits in 32 bytes, and refused if it does not.
pub string_to_bytes32-to_hash :
    (s : String)
    → ((length (utf8 s) ≤ 32) × (string_to_bytes32 s ≡ ok (to_hash s)))
      ⊎ ((32 < length (utf8 s))
          × (string_to_bytes32 s ≡ err (concat ("version " ∷ s ∷ " exceeds 32 bytes" ∷ []))))
unfolding string_to_bytes32
string_to_bytes32-to_hash s = elim (Bool-cases (ltb 32 (length (utf8 s)))) [
  | inl long ↦ inr ((ltb_iff _ _).0 long, rw long)
  | inr short ↦ inl (ground arith, rw short (ap ok (sym (to_hash_of_short s (ground arith)))))
]
