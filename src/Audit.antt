-- ===== src/Audit.antt =====
-- The audit of a deployment: extension/tools/cmd/audit-deploy/main.go, and `ExtractRevertData` of
-- extension/tools/pkg/fccutils/diag.go. What is printed is a list of lines; a quoted text is written
-- as it is.
mod Names
mod Replay
pub mod Diagnosis
pub mod Query
unfoldable pub use Names.*
unfoldable pub use Replay.*
mod Tests
use mindorr.Prelude.{
  ℕ, zero, suc, ◌-◌, eqb, ◌&&◌, not, concat, length, Option, none, some, Bool, String, Result, ok,
  err, List, [], ◌∷◌, ◌++◌, map, if◌then◌else◌,
}
use mindorr.Text.{is_empty}
use mindorr.Text.Decimal.{decimal}
use mindorr.Wire.{Hash}
use mindorr.Checks.Deploy.{Address, is_zero, Client}
use mindorr.Registration.{Done}
use mindorr.Support.{AddressFile, Addresses, parse_addresses}
use mindorr.RunTest.{hash_hex}
use mindorr.Audit.Names.{bytes32_to_string}
use mindorr.Audit.Replay.{Replayer, replay_add_tee_version}

-- The flags; `ext` is none where the number is negative.
pub record AuditFlags : Type 0 where
  pub ext : Option ℕ
  pub code_hash : String
  pub platform : String
  pub from : String
  pub version : String

-- The calls of the chain, one answer to each question, and the texts of the libraries.
pub record AuditCalls : Type 0 where
  pub file : AddressFile
  pub dial : Result Done
  pub client : Client
  -- `BlockNumber`, 0 where it fails.
  pub block_number : ℕ
  pub bind : Address → Result Done
  pub platforms : Result (List Hash)
  pub next_id : Result ℕ
  pub owner : ℕ → Result Address
  pub code_hashes : ℕ → Result (List Hash)
  pub key_types : ℕ → Result (List Hash)
  pub text : List ℕ → String
  pub address_hex : Address → String
  pub hex_to_hash : String → Hash
  pub replayer : Replayer

-- What the command prints, what it says on the error output, and its exit code.
pub record Audited : Type 0 where
  pub printed : List String
  pub failure : Option String
  pub exit_code : ℕ

abbrev printed_only : List String → Audited
printed_only lines = record { printed = lines; failure = none; exit_code = 0 }

abbrev stopped : String → Audited
stopped text = record { printed = []; failure = some text; exit_code = 1 }

-- `%-25s`.
unfoldable pub pad_right : ℕ → String → String
pad_right zero s = s
pad_right (suc k) String.[] = String.◌∷◌ " " (pad_right k String.[])
pad_right (suc k) (String.◌∷◌ c s) = String.◌∷◌ c (pad_right k s)

module _ (a : AuditCalls) where
  -- The status of an address: an error first, then the zero address, then its code.
  unfoldable pub code_status : Address → Result (List ℕ) → String
  unfolding is_zero
  code_status address (err e) = concat ("ERROR " ∷ e ∷ [])
  code_status address (ok code) =
      if is_zero address
      then "ZERO ADDRESS"
      else if eqb (length code) 0
      then "NO CODE"
      else concat ("ok (" ∷ decimal (length code) ∷ " bytes)" ∷ [])

  abbrev address_line : String × Address → String
  address_line (name, address) = concat (
      "  "
      ∷ pad_right 25 name
      ∷ " "
      ∷ a.address_hex address
      ∷ "   "
      ∷ code_status address (a.client.code_at address)
      ∷ [])

  abbrev named_addresses : Addresses → List (String × Address)
  named_addresses addr =
      ("FlareTeeManager", addr.flare_tee_manager)
      ∷ ("FlareSystemsManager", addr.flare_system_manager)
      ∷ ("Fdc2Hub", addr.fdc2_hub)
      ∷ []

  abbrev named_hash : Hash → String
  named_hash h = concat ("    " ∷ hash_hex h ∷ "   " ∷ bytes32_to_string a.text h ∷ [])

  -- A heading with the number of hashes, and the hashes.
  abbrev listed : String → (Hash → String) → List Hash → List String
  listed name line hashes =
      concat ("  " ∷ name ∷ " (" ∷ decimal (length hashes) ∷ "):" ∷ []) ∷ map line hashes

  abbrev platform_lines : Result (List Hash) → List String
  platform_lines (err e) = concat ("  getSystemSupportedPlatforms ERROR: " ∷ e ∷ []) ∷ []
  platform_lines (ok hashes) = listed "systemSupportedPlatforms" named_hash hashes

  abbrev counter_lines : Result ℕ → List String
  counter_lines (err e) = []
  counter_lines (ok count) = concat ("  nextPublicExtensionId: " ∷ decimal count ∷ []) ∷ []

  abbrev owner_line : Result Address → String
  owner_line (err e) = concat ("  getExtensionOwner ERROR: " ∷ e ∷ [])
  owner_line (ok owner) = concat ("  owner: " ∷ a.address_hex owner ∷ [])

  abbrev code_hash_lines : Result (List Hash) → List String
  code_hash_lines (err e) = concat ("  getSupportedCodeHashes ERROR: " ∷ e ∷ []) ∷ []
  code_hash_lines (ok hashes) =
      listed "supportedCodeHashes" (λ h. concat ("    " ∷ hash_hex h ∷ [])) hashes

  abbrev key_type_lines : Result (List Hash) → List String
  key_type_lines (err e) = []
  key_type_lines (ok hashes) = listed "supportedKeyTypes" named_hash hashes

  abbrev extension_lines : Option ℕ → List String
  extension_lines none = []
  extension_lines (some id) =
      concat ("=== Extension id=" ∷ decimal id ∷ " ===" ∷ [])
        ∷ owner_line (a.owner id)
        ∷ code_hash_lines (a.code_hashes id)
      ++ key_type_lines (a.key_types id)

  abbrev replay_lines : AuditFlags → Addresses → List String
  replay_lines flags addr = elim flags.ext [
    | none ↦ []
    | some id ↦
        if not (is_empty flags.code_hash) && not (is_empty flags.platform)
        then "=== addTeeVersion eth_call replay (decoding revert) ==="
          ∷ replay_add_tee_version a.replayer addr.flare_tee_manager
              (a.file.hex_to_address flags.from) id flags.version (a.hex_to_hash flags.code_hash)
              (a.hex_to_hash flags.platform)
          ∷ []
        else []
  ]

  abbrev chain_lines : ℕ → Addresses → List String
  chain_lines id addr =
      concat ("Chain ID: " ∷ decimal id ∷ "   block: " ∷ decimal a.block_number ∷ [])
      ∷ map address_line (named_addresses addr)

  abbrev manager_lines : AuditFlags → Addresses → List String
  manager_lines flags addr =
      concat (
          "=== ExtensionManager facet @ FlareTeeManager "
          ∷ a.address_hex addr.flare_tee_manager
          ∷ " ==="
          ∷ [])
        ∷ platform_lines a.platforms
      ++ (counter_lines a.next_id ++ (extension_lines flags.ext ++ replay_lines flags addr))

  -- `main` behind the chain's id.
  unfoldable pub audited : AuditFlags → ℕ → Addresses → Audited
  unfolding code_status
  audited flags id addr =
      if is_zero addr.flare_tee_manager
      then printed_only (chain_lines id addr)
      else elim (a.bind addr.flare_tee_manager) [
        | err e ↦ record {
          printed = chain_lines id addr;
          failure = some (concat ("bind ExtensionManager: " ∷ e ∷ []));
          exit_code = 0;
        }
        | ok d ↦ printed_only (chain_lines id addr ++ manager_lines flags addr)
      ]

  -- `main`.
  unfoldable pub audit : AuditFlags → Audited
  unfolding audited parse_addresses
  audit flags = elim (parse_addresses a.file) [
    | err e ↦ stopped (concat ("parse addresses: " ∷ e ∷ []))
    | ok addr ↦ elim a.dial [
      | err e ↦ stopped (concat ("dial: " ∷ e ∷ []))
      | ok d ↦ elim a.client.chain_id [
        | err e ↦ stopped (concat ("chainId: " ∷ e ∷ []))
        | ok id ↦ audited flags id addr
      ]
    ]
  ]
