-- ===== src/RunTest/Types.antt =====
-- The payloads and answers of extension/tools/cmd/run-test/main.go, and the libraries that it calls.
use mindorr.Prelude.{ℕ, Char, String, Result, List}
use mindorr.Wire.{Hash}
use mindorr.Checks.Deploy.{Address}
use mindorr.RunTest.Digest.{Padding}

-- `setPolicyResponse`, without what is never read.
pub record SetPolicyResponse : Type 0 where
  pub risk_level : String
  pub allowed_venues : ℕ

-- `allocateResponse`, without what is never read.
pub record AllocateResponse : Type 0 where
  pub digest : String
  pub signature : String

-- `policyPayload`.
pub record PolicyPayload : Type 0 where
  pub owner : String
  pub return_address : String
  pub risk_level : String
  pub asset : String
  pub allowed_venues : List String
  pub max_venue_bps : ℕ
  pub max_tx_amount : String
  pub min_health_factor_bps : ℕ

-- `allocatePayload`.
pub record AllocatePayload : Type 0 where
  pub asset : String
  pub amount : String
  pub venue : String
  pub portfolio_value : String
  pub venue_balance : String

-- The libraries: JSON, keys and signatures, addresses as text, and the case folding of characters
-- that are not ASCII. `K` is a private key's or a public key's type.
pub record Tools (W : Type 0) : Type 1 where
  pub PrivateKey : Type 0
  pub PublicKey : Type 0
  pub marshal_policy : PolicyPayload → Result (List ℕ)
  pub marshal_allocate : AllocatePayload → Result (List ℕ)
  pub decode_policy : List ℕ → Result SetPolicyResponse
  -- `updateKeyResponse`, which is its wallet address.
  pub decode_update_key : List ℕ → Result String
  pub decode_allocate : List ℕ → Result AllocateResponse
  pub to_ecdsa : List ℕ → Result PrivateKey
  pub public_key : PrivateKey → PublicKey
  pub pubkey_to_address : PublicKey → Address
  pub sig_to_pub : Hash → List ℕ → Result PublicKey
  -- `fccutils.TeeInfo`, of which the public key is read, and `types.ParsePubKey`.
  pub tee_info : String → W → Result (List ℕ) × W
  pub parse_pub_key : List ℕ → Result PublicKey
  -- `ecies.Encrypt`, which draws from the random source.
  pub encrypt : PublicKey → List ℕ → W → Result (List ℕ) × W
  pub hex_to_address : String → Address
  pub address_hex : Address → String
  pub padding : Padding
  pub fold : Char → Char
