-- ===== src/Checks/Deploy.antt =====
-- The checks of a deployment on the chain: `RegisterDeployChecks`, `CheckDeployerKeySource`,
-- `checkChainID` and `chainName` of extension/tools/pkg/validate/checks.go, and
-- extension/tools/pkg/validate/validate.go.
-- A nil client or key is `none`; the key is the address that is derived from it.
pub mod Passing
mod Tests
use mindorr.Prelude.{
  ltb, map, concat, Option, if◌then◌else◌, ◌==◌, String, Bool, replicate, ℕ, Result, List, ◌||◌,
  not, none, some, [], ◌∷◌, ok, err, ◌++◌, false,
}
use mindorr.Checks.EnvFile.{check_extension_env_format, Machine}
use mindorr.Wire.{same_hash}
use mindorr.Text.{is_empty}
use mindorr.Report.{warn, fail, pass, Report, CheckResult}
use mindorr.Checks.Probe.{outcome, add_all}
use mindorr.Text.Decimal.{decimal}

abbrev pub Address : Type 0
Address = List ℕ

-- What the checks ask of a chain client.
pub record Client : Type 0 where
  pub code_at : Address → Result (List ℕ)
  pub balance_at : Address → Result ℕ
  pub chain_id : Result ℕ

abbrev pub min_deploy_balance : ℕ
min_deploy_balance = 10000000000000000

abbrev zero_address : Address
zero_address = replicate 20 0

-- `addr == (common.Address{})`.
unfoldable pub is_zero : Address → Bool
is_zero addr = same_hash addr zero_address

-- `d[label]` of a map that holds true values only.
abbrev pub has_label : String → List String → Bool
has_label label [] = false
has_label label (l ∷ labels) = l == label || has_label label labels

-- `IsUsingDevKey`.
abbrev pub is_using_dev_key : Machine → Bool
is_using_dev_key m = is_empty (m.getenv "DEPLOYMENT_PRIVATE_KEY")

-- `CheckDeployerKeySource`.
unfoldable pub check_deployer_key_source : Machine → CheckResult
check_deployer_key_source m =
    let res = outcome "deploy" "D5" "deployer key source" in
    let mode = m.getenv "LOCAL_MODE" in
    if not (is_empty (m.getenv "DEPLOYMENT_PRIVATE_KEY"))
    then res pass "DEPLOYMENT_PRIVATE_KEY is set" ""
    else if mode == "true" || is_empty mode
    then res pass "using Hardhat dev key (LOCAL_MODE)" ""
    else res warn
        "DEPLOYMENT_PRIVATE_KEY not set — using Hardhat dev key which has no funds on Coston2"
        "Set DEPLOYMENT_PRIVATE_KEY in .env to a funded account on the target network"

-- `chainName`, of the number in decimal.
abbrev pub chain_name : String → String
chain_name id =
    if id == "31337"
    then "Hardhat/Anvil (local devnet)"
    else if id == "114"
    then "Coston2 (testnet)"
    else if id == "14"
    then "Flare (mainnet)"
    else "unknown network"

-- `checkChainID`, on the answer of the chain.
abbrev pub check_chain_id : Result ℕ → CheckResult
check_chain_id (err e) =
    outcome "deploy" "D6" "chain ID" fail (concat ("failed to get chain ID: " ∷ e ∷ []))
      "Check CHAIN_URL"
check_chain_id (ok id) =
    let n = decimal id in
    outcome "deploy" "D6" "chain ID" pass
      (concat ("chain ID " ∷ n ∷ " (" ∷ chain_name n ∷ ")" ∷ [])) ""

-- `hex` is `common.Address.Hex`.
module _ (hex : Address → String) where
  -- `AddressNotZero`: the error, if there is one.
  unfoldable pub address_not_zero : Address → String → Option String
  unfolding is_zero
  address_not_zero addr label =
      if is_zero addr
      then some
          (concat (label ∷ " is the zero address (" ∷ hex addr ∷ ") in the addresses file" ∷ []))
      else none

  -- `AddressHasCode`, on the answer of the chain.
  abbrev pub code_error : Address → String → Result (List ℕ) → Option String
  code_error addr label (err e) = some (concat ("cannot check " ∷ label ∷ ": " ∷ e ∷ []))
  code_error addr label (ok []) = some (
      concat (
        label
        ∷ " at "
        ∷ hex addr
        ∷ " has no deployed code. This address will be set as immutable in the contract constructor and cannot be changed. Check your deployed-addresses.json file — are you on the right network?"
        ∷ []))
  code_error addr label (ok (b ∷ code)) = none

  unfoldable pub address_has_code : Option Client → Address → String → Option String
  address_has_code none addr label =
      some (concat ("cannot check " ∷ label ∷ ": no chain client connected" ∷ []))
  address_has_code (some client) addr label = code_error addr label (client.code_at addr)

  -- `KeyHasFunds`, on the answer of the chain.
  abbrev pub funds_error : Address → ℕ → Result ℕ → Option String
  funds_error addr min (err e) = some (concat ("cannot check deployer balance: " ∷ e ∷ []))
  funds_error addr min (ok balance) =
      if ltb balance min
      then some (
          concat (
            "deployer "
            ∷ hex addr
            ∷ " has insufficient funds (balance: "
            ∷ decimal balance
            ∷ " wei, minimum required: "
            ∷ decimal min
            ∷ " wei). Fund this account before deploying"
            ∷ []))
      else none

  unfoldable pub key_has_funds : Option Client → Address → ℕ → Option String
  key_has_funds none addr min = some "cannot check deployer balance: no chain client connected"
  key_has_funds (some client) addr min = funds_error addr min (client.balance_at addr)

  -- A result that fails with the error, or passes with the message.
  abbrev pub of_error : String → String → String → Option String → String → String → CheckResult
  of_error step id name none message fix = outcome step id name pass message ""
  of_error step id name (some e) message fix = outcome step id name fail e fix

  -- D3, for one entry of the map.
  abbrev pub zero_check : String × Address → CheckResult
  zero_check (label, addr) =
      of_error "deploy" "D3" (concat (label ∷ " address not zero" ∷ []))
        (address_not_zero addr label) (hex addr)
        "Re-run the deploy script or check deployed-addresses.json"

  -- The labels of the entries that fail it, `zeroAddrs`.
  unfoldable pub zero_labels : List (String × Address) → List String
  unfolding address_not_zero
  zero_labels [] = []
  zero_labels ((label, addr) ∷ entries) = elim (address_not_zero addr label) [
    | none ↦ zero_labels entries
    | some e ↦ label ∷ zero_labels entries
  ]

  -- D1, for one entry.
  abbrev pub code_check : Option Client → String × Address → CheckResult
  code_check client (label, addr) =
      of_error "deploy" "D1" (concat (label ∷ " has deployed code" ∷ []))
        (address_has_code client addr label) (concat ("code found at " ∷ hex addr ∷ []))
        "Deploy contracts or check CHAIN_URL / deployed-addresses.json"

  -- The second loop, which leaves out the labels of zero addresses.
  unfoldable pub code_checks :
      Option Client → List String → List (String × Address) → List CheckResult
  unfolding address_has_code
  code_checks client zeros [] = []
  code_checks client zeros (entry ∷ entries) =
      let rest = code_checks client zeros entries in
      if has_label entry.0 zeros then rest else code_check client entry ∷ rest

  -- D5, where there are a key and a client.
  abbrev pub funds_checks : Option Client → Option Address → List CheckResult
  funds_checks (some client) (some addr) =
      of_error "deploy" "D5" "deployer has sufficient funds"
        (key_has_funds (some client) addr min_deploy_balance) "balance above minimum threshold"
        "Fund the deployer account before deploying"
      ∷ []
  funds_checks _ _ = []

  -- D6.
  abbrev pub chain_checks : Option Client → List CheckResult
  chain_checks none = []
  chain_checks (some client) = check_chain_id client.chain_id ∷ []

  -- D7.
  abbrev pub format_checks : Machine → String → List CheckResult
  format_checks m path = if is_empty path then [] else check_extension_env_format m path

  -- The results of `RegisterDeployChecks`. The two loops over the map each have their own order of
  -- its entries: `first` and `second`.
  abbrev pub deploy_results :
      Machine
      → Option Client
      → Option Address
      → (first second : List (String × Address)) → String
      → List CheckResult
  deploy_results m client key first second path =
      map zero_check first
      ++ (code_checks client (zero_labels first) second
          ++ (check_deployer_key_source m
              ∷ (funds_checks client key ++ (chain_checks client ++ format_checks m path))))

  -- `RegisterDeployChecks`.
  unfoldable pub register_deploy_checks :
      Machine
      → Option Client
      → Option Address
      → (first second : List (String × Address)) → String
      → Report
      → Report
  unfolding add_all
  register_deploy_checks m client key first second path r =
      add_all r (deploy_results m client key first second path)
