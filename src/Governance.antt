-- ===== src/Governance.antt =====
-- The governance of a machine: `SetTeeGovernance` of extension/tools/pkg/fccutils/governance.go, and
-- extension/tools/cmd/set-governance/main.go.
pub mod Governed
pub mod Bounds
pub mod Setting
mod Tests
use mindorr.Prelude.{
  ℕ, code, ◌+◌, ◌-◌, ◌*◌, ◌^◌, leb, ltb, eqb, ◌&&◌, ◌||◌, Bool, true, false, concat, length, Option,
  none, some, String, Result, ok, err, List, [], ◌∷◌, map, if◌then◌else◌,
}
use mindorr.Text.{is_empty}
use mindorr.Text.Trim.{trim_space}
use mindorr.Text.Decimal.{decimal}
use mindorr.Wire.{Hash, same_hash}
use mindorr.Checks.Deploy.{Address}
use mindorr.VerifyDeploy.{allowed_ids}
use mindorr.Registration.{Io, ◌>>=◌, ◌>>◌, and_then, lift, Done, done, Called, Node}
use mindorr.Registration.Revert.{check_tx, trim_0x}
use mindorr.Registration.Requests.{sent}
use mindorr.Registration.Setup.{worded}

-- `types.GovernanceHash`, the contract `TeeExtensionGovernance`, and the transactor of the owner.
pub record GovernanceContract (W : Type 0) : Type 0 where
  pub governance_hash : List Address → ℕ → Result Hash
  pub transactor : Result Done
  pub get_latest : ℕ → W → Result Hash
  pub set_new : ℕ → List Address → ℕ → W → Called Hash × W

abbrev is_current : Result Hash → Hash → Bool
is_current (err e) desired = false
is_current (ok current) desired = same_hash current desired

module _ {W Log : Type 0} (n : Node W Log) (g : GovernanceContract W) where
  abbrev pub change : ℕ → List Address → ℕ → Io W Done
  change id signers threshold = do
    lift g.transactor
    tx ← (λ w.
        sent n (λ e. concat ("SetNewTeeGovernance failed: " ∷ e ∷ []))
          (g.set_new id signers threshold w))
    receipt ← check_tx n tx
    lift (ok done)

  abbrev pub change_unless : Bool → Io W Done → Io W Done
  change_unless true act w = (ok done, w)
  change_unless false act w = act w

  -- `SetTeeGovernance`.
  unfoldable pub set_tee_governance : ℕ → List Address → ℕ → Io W Done
  unfolding check_tx
  set_tee_governance id signers threshold =
      if eqb (length signers) 0
      then lift (err "at least one governance signer is required (set GOVERNANCE_SIGNERS)")
      else if eqb threshold 0 || ltb (length signers) threshold
      then lift (
          err (
            concat (
              "invalid GOVERNANCE_THRESHOLD "
              ∷ decimal threshold
              ∷ " for "
              ∷ decimal (length signers)
              ∷ " signer(s)"
              ∷ [])))
      else and_then
          (lift (worded "computing governance hash: " (g.governance_hash signers threshold)))
          (λ desired w.
            change_unless (is_current (g.get_latest id w) desired) (change id signers threshold) w)

-- `strconv.ParseUint(s, 10, 64)`: digits only, of a number below 2 ^ 64.
abbrev digits_value : ℕ → String → Option ℕ
digits_value n String.[] = some n
digits_value n (String.◌∷◌ c s) =
    let rest = digits_value (n * 10 + (code c - b'0')) s in
    if leb b'0' (code c) && leb (code c) b'9' then rest else none

abbrev fits : Option ℕ → Option ℕ
fits none = none
fits (some n) = if ltb n (2 ^ 64) then some n else none

abbrev pub parse_uint : String → Option ℕ
parse_uint String.[] = none
parse_uint (String.◌∷◌ c s) = fits (digits_value 0 (String.◌∷◌ c s))

abbrev positive_or_1 : Option ℕ → ℕ
positive_or_1 none = 1
positive_or_1 (some v) = if ltb 0 v then v else 1

-- `parseThreshold`.
unfoldable pub parse_threshold : String → ℕ
unfolding trim_space
parse_threshold raw = positive_or_1 (parse_uint (trim_space raw))

abbrev or_fallback : List Address → Address → List Address
or_fallback [] fallback = fallback ∷ []
or_fallback (a ∷ l) fallback = a ∷ l

-- `parseSigners`; the parts are those that the filter of verify-deploy takes too.
unfoldable pub parse_signers : (String → Address) → String → Address → List Address
unfolding allowed_ids
parse_signers hex_to_address raw fallback =
    or_fallback (map hex_to_address (allowed_ids raw)) fallback

-- `strings.TrimPrefix(s, "0X")`.
abbrev trim_upper_0x : String → String
trim_upper_0x (String.◌∷◌ c (String.◌∷◌ d s)) =
    if eqb (code c) b'0' && eqb (code d) b'X' then s else String.◌∷◌ c (String.◌∷◌ d s)
trim_upper_0x s = s

-- Two prefixes are cut, one behind the other.
unfoldable pub trim_prefixes : String → String
trim_prefixes s = trim_upper_0x (trim_0x s)

-- The environment and the libraries of the command.
pub record Command (W : Type 0) : Type 1 where
  pub PrivateKey : Type 0
  pub getenv : String → String
  pub hex_to_ecdsa : String → Result PrivateKey
  pub address_of : PrivateKey → Address
  pub hex_to_address : String → Address
  -- `DefaultSupport`, of which the key is read, and the contract for a key.
  pub support : Result PrivateKey
  pub contract : PrivateKey → GovernanceContract W
  -- `TeeInfo`, of which the id of the extension is read.
  pub tee_info : W → Result ℕ × W

module _ {W Log : Type 0} (n : Node W Log) (c : Command W) where
  open c use {PrivateKey}

  abbrev owner_key : PrivateKey → Result PrivateKey
  owner_key default =
      let text = c.getenv "EXTENSION_OWNER_KEY" in
      if is_empty text then ok default else c.hex_to_ecdsa (trim_prefixes text)

  abbrev pub default_signer : Address → Address
  default_signer deployer =
      let owner = trim_space (c.getenv "INITIAL_OWNER") in
      if is_empty owner then deployer else c.hex_to_address owner

  -- `main`.
  unfoldable pub set_governance : Io W Done
  unfolding set_tee_governance parse_signers parse_threshold trim_prefixes
  set_governance = do
    default ← lift c.support
    key ← lift (owner_key default)
    id ← c.tee_info
    let fallback = default_signer (c.address_of key)
    let signers = parse_signers c.hex_to_address (c.getenv "GOVERNANCE_SIGNERS") fallback
    let threshold = parse_threshold (c.getenv "GOVERNANCE_THRESHOLD")
    set_tee_governance n (c.contract key) id signers threshold
