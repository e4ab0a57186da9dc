-- ===== src/Registration/Machine.antt =====
-- What a machine says of itself: `TeeInfo`, `CodeHashAndPlatform` and `SetProxyUrl` of
-- extension/tools/pkg/fccutils/tee_calls.go, extension/tools/pkg/fccutils/common.go, and the
-- constants of extension/tools/pkg/fccutils/encoding.go.
use mindorr.Prelude.{
  ℕ, ◌≡◌, refl, eqb, not, concat, if◌then◌else◌, ◌==◌, String, Result, ok, err, List, [], ◌∷◌, some,
  arith,
}
use mindorr.Text.Decimal.{decimal}
use mindorr.Text.Hex.{encode_hex, decode_hex}
use mindorr.Wire.{Hash, same_hash, same_hash_iff, to_hash}
use mindorr.Checks.Deploy.{Address}
use mindorr.Registration.{Io, ◌>>=◌, lift, then_do, Done, done}
use mindorr.Registration.RegisterNode.{SignedInfo, Keys, tee_proxy_id}

-- `types.SignedTeeInfoResponse`: what `TeeProxyId` reads, and the other parts.
pub record TeeInfoResponse : Type 0 where
  pub signed : SignedInfo
  pub attestation : String
  pub code_hash : Hash
  pub platform : Hash
  pub extension_id : ℕ

-- The claims of an attestation token, which is not verified, and their two readings.
pub record Claims : Type 0 where
  pub claimed_code_hash : Result Hash
  pub claimed_platform : Result Hash

-- The requests over HTTP, the decoding of an answer, and the environment.
pub record Machines (W : Type 0) : Type 0 where
  pub get : String → W → Result (List ℕ) × W
  pub decode_info : List ℕ → Result TeeInfoResponse
  -- `http.Post` of the marshalled URL: the status.
  pub post_url : String → String → W → Result ℕ × W
  pub parse_claims : String → Result Claims
  pub keys : Keys
  pub getenv : String → String

-- The two constants, without the prefix that `HexToHash` does not need.
abbrev pub test_platform_hex : String
test_platform_hex = "544553545f504c4154464f524d00000000000000000000000000000000000000"

abbrev pub tee_code_hash_hex : String
tee_code_hash_hex = "194844cf417dde867073e5ab7199fa4d21fd82b5dbe2bdea8b3d7fc18d10fdc2"

-- The constant is the packed name "TEST_PLATFORM".
test_platform_is_packed : decode_hex test_platform_hex ≡ some (to_hash "TEST_PLATFORM")
unfolding decode_hex to_hash
test_platform_is_packed = refl

module _ {W : Type 0} (m : Machines W) where
  -- `TeeInfo`; the status of the answer is not looked at.
  unfoldable pub tee_info : String → Io W TeeInfoResponse
  tee_info url = do body ← m.get (concat (url ∷ "/info" ∷ [])); lift (m.decode_info body)

  -- `GetTeeProxyID`.
  unfoldable pub get_tee_proxy_id : String → Io W (Address × Address)
  unfolding tee_info tee_proxy_id
  get_tee_proxy_id url = do info ← tee_info url; lift (tee_proxy_id m.keys info.signed)

  -- `CodeHashAndPlatform`.
  unfoldable pub code_hash_and_platform : String → Result (Hash × Hash)
  code_hash_and_platform attestation = then_do (m.parse_claims attestation) (λ claims.
      then_do claims.claimed_code_hash
        (λ code_hash. then_do claims.claimed_platform (λ platform. ok (code_hash, platform))))

  module _ (hex_to_hash : String → Hash) where
    -- The code hash and the platform that the machine should have.
    unfoldable pub expected : TeeInfoResponse → Result (Hash × Hash)
    unfolding code_hash_and_platform
    expected info =
        if m.getenv "SIMULATED_TEE" == "true"
        then ok (hex_to_hash tee_code_hash_hex, hex_to_hash test_platform_hex)
        else code_hash_and_platform info.attestation

    abbrev pub compared : TeeInfoResponse → Hash × Hash → Result (Hash × Hash)
    compared info (code_hash, platform) =
        if not (same_hash code_hash info.code_hash)
        then err (
            concat (
              "code hashes do not match: "
              ∷ encode_hex code_hash
              ∷ ", "
              ∷ encode_hex info.code_hash
              ∷ []))
        else if not (same_hash platform info.platform)
        then err (
            concat (
              "platforms do not matc: "
              ∷ encode_hex platform
              ∷ ", "
              ∷ encode_hex info.platform
              ∷ []))
        else ok (code_hash, platform)

    -- `GetCodeHashAndPlatform`.
    unfoldable pub get_code_hash_and_platform : TeeInfoResponse → Result (Hash × Hash)
    unfolding expected
    get_code_hash_and_platform info = then_do (expected info) (compared info)

  abbrev localhost : ℕ → String
  localhost port = concat ("http://localhost:" ∷ decimal port ∷ [])

  abbrev pub status_ok : ℕ → Result Done
  status_ok status =
      if not (eqb status 200)
      then err (concat ("unexpected status code: " ∷ decimal status ∷ []))
      else ok done

  -- `SetProxyUrl`.
  unfoldable pub set_proxy_url : (configuration_port proxy_port : ℕ) → Io W Done
  set_proxy_url configuration_port proxy_port = do
    status ←
        m.post_url (concat (localhost configuration_port ∷ "/proxy" ∷ [])) (localhost proxy_port)
    lift (status_ok status)

module _ {W : Type 0} (m : Machines W) (hex_to_hash : String → Hash) where
  pub compared-eq-ok :
      (info : TeeInfoResponse) (pair found : Hash × Hash)
      → compared m hex_to_hash info pair ≡ ok found
      → (pair ≡ (info.code_hash, info.platform)) × (found ≡ (info.code_hash, info.platform))
  compared-eq-ok info (code_hash, platform) found h =
      ground
        (arith, h, same_hash_iff code_hash info.code_hash, same_hash_iff platform info.platform)
