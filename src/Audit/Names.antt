-- ===== src/Audit/Names.antt =====
-- `bytes32ToString` of extension/tools/cmd/audit-deploy/main.go, against `StringToBytes32`.
use mindorr.Prelude.{
  ℕ, zero, suc, ◌-◌, ◌≤◌, ◌≡◌, ◌≢◌, refl, ap, ◌∙◌, List, [], ◌∷◌, ◌++◌, length, replicate, take_all,
  Bool, true, false, eqb, ◌&&◌, if◌then◌else◌, String, ok, arith, ltb,
}
use mindorr.Text.Trim.{trim_space}
use mindorr.Wire.{Hash, utf8, copy_into_32, string_to_bytes32}

abbrev is_nil : List ℕ → Bool
is_nil [] = true
is_nil (b ∷ bs) = false

-- `b[:end]` behind the loop that takes zeros off the end.
unfoldable pub strip_zeros : List ℕ → List ℕ
strip_zeros [] = []
strip_zeros (b ∷ bs) = let rest = strip_zeros bs in if eqb b 0 && is_nil rest then [] else b ∷ rest

-- `string(b)` of bytes is the argument `text`.
unfoldable pub bytes32_to_string : (List ℕ → String) → Hash → String
unfolding strip_zeros trim_space
bytes32_to_string text b = trim_space (text (strip_zeros b))

-- The last byte, if there is one, is not 0.
abbrev pub EndsNotNul : List ℕ → Type 0
EndsNotNul [] = Unit
EndsNotNul (b ∷ []) = b ≢ 0
EndsNotNul (b ∷ c ∷ bs) = EndsNotNul (c ∷ bs)

strip_zeros-replicate : (k : ℕ) → strip_zeros (replicate k 0) ≡ []
unfolding strip_zeros
strip_zeros-replicate zero = refl
strip_zeros-replicate (suc k) = rw (strip_zeros-replicate k) refl

strip_zeros-padded : (bs : List ℕ) (k : ℕ) → EndsNotNul bs → strip_zeros (bs ++ replicate k 0) ≡ bs
unfolding strip_zeros
strip_zeros-padded [] k h = strip_zeros-replicate k
strip_zeros-padded (b ∷ []) k h =
    let low : eqb b 0 ≡ false = ground (arith, h) in rw (strip_zeros-replicate k, low) refl
strip_zeros-padded (b ∷ c ∷ bs) k h =
    rw (strip_zeros, strip_zeros-padded (c ∷ bs) k h) (ground arith)

-- A name that fits in 32 bytes and does not end with a zero byte is read back as it was packed, but for
-- white space around it, if the bytes of the name are turned into the name.
pub bytes32_to_string-string_to_bytes32 :
    (text : List ℕ → String) (s : String)
    → text (utf8 s) ≡ s
    → length (utf8 s) ≤ 32
    → EndsNotNul (utf8 s)
    → (h : Hash) × (string_to_bytes32 s ≡ ok h) × (bytes32_to_string text h ≡ trim_space s)
unfolding bytes32_to_string string_to_bytes32
bytes32_to_string-string_to_bytes32 text s reads fits ends =
    let short : ltb 32 (length (utf8 s)) ≡ false = ground arith in
    let whole = take_all 32 (utf8 s) fits in
    (
      copy_into_32 (utf8 s),
      rw short refl,
      ap (λ l. trim_space (text l))
            (ap (λ l. strip_zeros (l ++ replicate (32 - length l) 0)) whole
              ∙ strip_zeros-padded (utf8 s) (32 - length (utf8 s)) ends)
          ∙ ap trim_space reads,
    )
