-- ===== src/Checks/Registration.antt =====
-- The checks of the registered extension, R1 to R7: `RegisterRegistrationChecks` of
-- extension/tools/pkg/validate/checks.go.
pub mod Passing
mod Tests
pub mod Senders
use mindorr.Prelude.{
  code, ltb, eqb, concat, if◌then◌else◌, ◌^◌, ◌+◌, ◌%◌, ◌*◌, Bool, List, String, Option, ℕ, Result,
  ◌≡◌, refl, ◌||◌, ◌&&◌, not, none, some, [], ◌∷◌, ok, err, length, ◌++◌, false, true, zero, suc,
}
use mindorr.Checks.Deploy.{Client, Address}
use mindorr.Text.Hex.{hex_value}
use mindorr.LiveServer.Address.{strip_0x}
use mindorr.Checks.EnvFile.{is_extension_id, parse_extension_env, is_address, Env, Machine}
use mindorr.Report.{Report, skip, warn, pass, fail, CheckResult, Status}
use mindorr.Text.Decimal.{decimal}
use mindorr.Checks.Probe.{add_all, outcome}
use mindorr.Wire.{copy_into_32, same_hash}
use mindorr.Text.{is_empty}

-- The two contracts, as the checks call them; a nil client, contract or key is `none` below.
pub record ExtensionManager : Type 0 where
  pub next_public_extension_id : Result ℕ
  pub tee_extension_instructions_sender : ℕ → Result Address
  pub is_key_type_supported : ℕ → List ℕ → Result Bool

pub record OwnerAllowlist : Type 0 where
  pub is_allowed_tee_machine_owner : ℕ → Address → Result Bool

-- What the checks take from the libraries: `common.Address.Hex`, `common.HexToAddress` and
-- `wallets.EVMType`.
pub record Library : Type 0 where
  pub hex : Address → String
  pub hex_to_address : String → Address
  pub evm_type : List ℕ

abbrev pub digit_or_zero : Option ℕ → ℕ
digit_or_zero none = 0
digit_or_zero (some d) = d

-- `SetString(digits, 16)`, from the value of the digits that are read; digits that match the
-- pattern have a value each.
unfoldable pub number_of_hex : ℕ → String → ℕ
unfolding hex_value
number_of_hex n String.[] = n
number_of_hex n (String.◌∷◌ c s) = number_of_hex (n * 16 + digit_or_zero (hex_value (code c))) s

abbrev number_of_digits : Option String → ℕ
number_of_digits none = 0
number_of_digits (some digits) = number_of_hex 0 digits

-- `extIDStr[2:]` in base 16, of a text that matches the pattern.
unfoldable pub extension_number : String → ℕ
unfolding number_of_hex strip_0x
extension_number id = number_of_digits (strip_0x id)

abbrev pub id_res : String → String → Status → String → String → CheckResult
id_res = outcome "register"

-- R1, on the contract's answer.
abbrev pub counter_check : Result ℕ → CheckResult
counter_check (err e) =
    id_res "R1" "next public extension id" fail
      (concat ("failed to query nextPublicExtensionId: " ∷ e ∷ [])) ""
counter_check (ok counter) =
    if eqb counter 0
    then id_res "R1" "next public extension id" warn
        "nextPublicExtensionId is 0 — no public extensions registered yet" ""
    else id_res "R1" "next public extension id" pass
        (concat ("nextPublicExtensionId = " ∷ decimal counter ∷ [])) ""

-- R2: the sender on the chain is the one in the file.
abbrev pub sender_check : Library → String → Result Address → CheckResult
sender_check lib sender (err e) =
    id_res "R2" "instruction sender matches on-chain" fail
      (concat ("failed to query instruction sender: " ∷ e ∷ [])) ""
sender_check lib sender (ok on_chain) =
    if same_hash on_chain (lib.hex_to_address sender)
    then id_res "R2" "instruction sender matches on-chain" pass
        (concat ("on-chain sender " ∷ lib.hex on_chain ∷ " matches extension.env" ∷ [])) ""
    else id_res "R2" "instruction sender matches on-chain" fail
        (concat ("on-chain sender " ∷ lib.hex on_chain ∷ " != extension.env " ∷ sender ∷ []))
        "Re-register the extension or update extension.env"

-- R3: the deployer may own a machine.
abbrev pub owner_check : Result Bool → CheckResult
owner_check (err e) =
    id_res "R3" "deployer is allowed TEE machine owner" fail
      (concat ("failed to query allowlist: " ∷ e ∷ [])) ""
owner_check (ok true) =
    id_res "R3" "deployer is allowed TEE machine owner" pass
      "deployer is on the TEE machine owner allowlist" ""
owner_check (ok false) =
    id_res "R3" "deployer is allowed TEE machine owner" fail
      "deployer is NOT on the TEE machine owner allowlist"
      "Run the register step to add the deployer as a TEE machine owner"

-- R4: the key type is supported.
abbrev pub key_type_check : Result Bool → CheckResult
key_type_check (err e) =
    id_res "R4" "EVM key type supported" fail
      (concat ("failed to query key type support: " ∷ e ∷ [])) ""
key_type_check (ok true) =
    id_res "R4" "EVM key type supported" pass "EVM key type is supported for this extension" ""
key_type_check (ok false) =
    id_res "R4" "EVM key type supported" fail "EVM key type is NOT supported for this extension"
      "Run the register step to add EVM key type support"

-- `counter.Int64()` as the bound of a loop that counts from 0: the low 64 bits, where a set top
-- bit is a negative number, for which there is no round.
unfoldable pub int64_rounds : ℕ → ℕ
int64_rounds n = let w = n % 2 ^ 64 in if ltb w (2 ^ 63) then w else 0

abbrev pub is_sender : Address → Result Address → Bool
is_sender expected (err e) = false
is_sender expected (ok sender) = same_hash sender expected

-- The loop of R7: `k` rounds from the id `i`; a failed query is passed over.
unfoldable pub matching_ids : ExtensionManager → Address → ℕ → ℕ → List ℕ
matching_ids registry expected i zero = []
matching_ids registry expected i (suc k) =
    let rest = matching_ids registry expected (i + 1) k in
    if is_sender expected (registry.tee_extension_instructions_sender i) then i ∷ rest else rest

-- `strings.Join(ids, ", ")` of the decimal numbers.
abbrev joined : List ℕ → String
joined [] = ""
joined (i ∷ []) = decimal i
joined (i ∷ j ∷ is) = concat (decimal i ∷ ", " ∷ joined (j ∷ is) ∷ [])

abbrev pub unique_check : String → List ℕ → CheckResult
unique_check sender ids =
    if ltb 1 (length ids)
    then id_res "R7" "unique instruction sender" warn
        (concat
          ("INSTRUCTION_SENDER " ∷ sender ∷ " is used by multiple extensions: " ∷ joined ids ∷ []))
        ""
    else id_res "R7" "unique instruction sender" pass
        "instruction sender is unique across registered extensions" ""

-- R7, where R1 has read a positive counter.
abbrev pub unique_checks : Library → ExtensionManager → String → Result ℕ → List CheckResult
unique_checks lib registry sender (err e) = []
unique_checks lib registry sender (ok counter) =
    if eqb counter 0
    then []
    else if is_address sender
    then unique_check sender
        (matching_ids registry (lib.hex_to_address sender) 0 (int64_rounds counter))
      ∷ []
    else []

-- R3, where there are a key, an allowlist and a client.
abbrev owner_checks : Option Client → Option Address → Option OwnerAllowlist → ℕ → List CheckResult
owner_checks (some client) (some key) (some allowlist) id =
    owner_check (allowlist.is_allowed_tee_machine_owner id key) ∷ []
owner_checks _ _ _ id = []

-- What the checks ask the registry, where there are a registry and a client: R1, and R2, R4, R7.
abbrev counter_checks : Option Client → Option ExtensionManager → List CheckResult
counter_checks (some client) (some registry) = counter_check registry.next_public_extension_id ∷ []
counter_checks _ _ = []

abbrev pub sender_checks :
    Library → Option Client → Option ExtensionManager → String → ℕ → List CheckResult
sender_checks lib (some client) (some registry) sender id =
    if is_address sender
    then sender_check lib sender (registry.tee_extension_instructions_sender id) ∷ []
    else []
sender_checks lib _ _ sender id = []

abbrev key_type_checks : Library → Option Client → Option ExtensionManager → ℕ → List CheckResult
key_type_checks lib (some client) (some registry) id =
    key_type_check (registry.is_key_type_supported id (copy_into_32 lib.evm_type)) ∷ []
key_type_checks lib _ _ id = []

abbrev pub all_unique_checks :
    Library → Option Client → Option ExtensionManager → String → List CheckResult
all_unique_checks lib (some client) (some registry) sender =
    unique_checks lib registry sender registry.next_public_extension_id
all_unique_checks lib _ _ sender = []

module _ (m : Machine) (lib : Library) (client : Option Client) (key : Option Address)
    (registry : Option ExtensionManager) (allowlist : Option OwnerAllowlist) where
  -- The checks behind the format of the id.
  abbrev pub chain_results : Env → List CheckResult
  chain_results env =
      let id = extension_number env.extension_id in
      sender_checks lib client registry env.instruction_sender id
      ++ (owner_checks client key allowlist id
          ++ (key_type_checks lib client registry id
              ++ all_unique_checks lib client registry env.instruction_sender))

  -- The checks of what the file holds; a malformed id ends them.
  abbrev pub env_results : Env → List CheckResult
  env_results env =
      if is_empty env.extension_id && is_empty env.instruction_sender
      then id_res "R1-R7" "registration checks" skip
          "config/extension.env not found — run pre-build.sh first" ""
        ∷ []
      else counter_checks client registry
        ++ (if not (is_extension_id env.extension_id)
            then id_res "R2" "EXTENSION_ID format" fail
                (concat ("malformed EXTENSION_ID: " ∷ m.quote env.extension_id ∷ []))
                "Delete config/extension.env and re-run scripts/pre-build.sh"
              ∷ []
            else chain_results env)

  -- `RegisterRegistrationChecks`; the error of `parseExtensionEnv` is nil, so that its branch is
  -- not here.
  unfoldable pub register_registration_checks : String → Report → Report
  unfolding add_all parse_extension_env extension_number matching_ids int64_rounds
  register_registration_checks path r = add_all r (
      if is_empty path
      then id_res "R1-R7" "registration checks" skip "no --config path provided" "" ∷ []
      else env_results (parse_extension_env m path))
