-- ===== src/Governance/Bounds.antt =====
-- What the command makes of its environment: signers and a threshold in their ranges.
use mindorr.Prelude.{
  ℕ, ◌≡◌, refl, ◌≤◌, ◌<◌, ◌^◌, length, Option, none, some, String, List, [], ◌∷◌, arith, map,
}
use mindorr.Text.Trim.{trim_space}
use mindorr.Checks.Deploy.{Address}
use mindorr.VerifyDeploy.{allowed_ids}
use mindorr.Governance.{
  parse_threshold, parse_signers, parse_uint, positive_or_1, or_fallback, fits, digits_value,
}

fits-lt : (o : Option ℕ) {v : ℕ} → fits o ≡ some v → v < 2 ^ 64
fits-lt o h = ground arith

parse_uint-lt : (s : String) {v : ℕ} → parse_uint s ≡ some v → v < 2 ^ 64
parse_uint-lt String.[] h = cc
parse_uint-lt (String.◌∷◌ c s) h = fits-lt (digits_value 0 (String.◌∷◌ c s)) h

positive_or_1-range :
    (o : Option ℕ)
    → ((v : ℕ) → o ≡ some v → v < 2 ^ 64)
    → (1 ≤ positive_or_1 o) × (positive_or_1 o < 2 ^ 64)
positive_or_1-range none h = omega arith
positive_or_1-range (some v) h = ground (arith, h v refl)

length-or_fallback : (l : List Address) (fallback : Address) → 1 ≤ length (or_fallback l fallback)
length-or_fallback [] fallback = omega arith
length-or_fallback (a ∷ l) fallback = omega arith

-- Whatever the environment holds, there is at least one signer, and the threshold is a positive number
-- of 64 bits.
pub parse_threshold-range :
    (hex_to_address : String → Address) (signers threshold : String) (fallback : Address)
    → (1 ≤ length (parse_signers hex_to_address signers fallback))
      × (1 ≤ parse_threshold threshold)
      × (parse_threshold threshold < 2 ^ 64)
unfolding parse_threshold parse_signers
parse_threshold-range hex_to_address signers threshold fallback =
    let (low, high) =
      positive_or_1-range (parse_uint (trim_space threshold))
        (λ v h. parse_uint-lt (trim_space threshold) h) in
    (length-or_fallback (map hex_to_address (allowed_ids signers)) fallback, low, high)
