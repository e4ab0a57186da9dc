-- ===== src/Commands.antt =====
-- The commands that put the parts together: extension/tools/cmd/deploy-contract/main.go,
-- extension/tools/cmd/register-extension/main.go, extension/tools/cmd/allow-tee-version/main.go,
-- extension/tools/cmd/register-tee/main.go, and `findProxyConfig` of
-- extension/tools/cmd/start-proxy/main.go. The lines that a command only logs are left out.
pub mod Preflight
pub mod Attested
pub mod Allowed
pub mod Start
pub mod Printed
pub mod Registered
mod Tests
use mindorr.Prelude.{
  ℕ, not, Bool, true, false, Option, none, some, if◌then◌else◌, String, Result, ok, err,
}
use mindorr.Text.{is_empty}
use mindorr.Text.Search.{contains_text}
use mindorr.Wire.{Hash}
use mindorr.Checks.Deploy.{
  Address, Client, address_not_zero, address_has_code, key_has_funds, min_deploy_balance,
}
use mindorr.Registration.{Io, ◌>>=◌, ◌>>◌, and_then, lift, then_do, Done, done, Node}
use mindorr.Registration.RegisterNode.{tee_proxy_id, register_node}
use mindorr.Registration.Setup.{Registrar, setup_extension, add_tee_version}
use mindorr.Registration.Machine.{
  TeeInfoResponse, Machines, tee_info, get_tee_proxy_id, get_code_hash_and_platform,
}
use mindorr.Instructions.{SenderContract, deploy_instruction_sender}
use mindorr.Support.{strip_either}

-- What a command takes from `DefaultSupport`, beside the contracts.
pub record Started : Type 0 where
  pub client : Client
  pub deployer : Address
  pub manager : Address

-- `FatalWithCause` of an error that is not nil.
abbrev pub or_fatal : Option String → Result Done
or_fatal none = ok done
or_fatal (some e) = err e

-- `findProxyConfig`: the environment first, then the file below the project's root if it is there.
abbrev pub find_proxy_config : (String → String) → (String → Bool) → String → String
find_proxy_config getenv is_there candidate =
    if not (is_empty (getenv "PROXY_CONFIG"))
    then getenv "PROXY_CONFIG"
    else if is_there candidate
    then candidate
    else "./config/proxy/extension_proxy.toml"

-- The flags of register-tee.
pub record RegisterFlags : Type 0 where
  pub proxy_url : String
  pub host_url : String
  pub ftdc_url : String
  pub instruction_id : Hash
  pub command : String
  pub state_file : String
  pub resume : Bool

abbrev pub host_of : RegisterFlags → String
host_of flags = if is_empty flags.host_url then flags.proxy_url else flags.host_url

-- The state file is removed before anything else, unless the run resumes; an error in that is only
-- logged.
abbrev pub started_with : {W Log : Type 0} → Node W Log → RegisterFlags → W → W
started_with n flags w = if flags.resume then w else n.remove_state flags.state_file w

module _ {W Log : Type 0} (n : Node W Log) (support : Result Started) where
  module _ (hex : Address → String) (c : SenderContract W)
      (write_file : String → Address → W → W) where
    -- The three checks before a deployment.
    unfoldable pub preflight : Started → Result Done
    unfolding address_not_zero address_has_code key_has_funds
    preflight s = then_do (or_fatal (address_not_zero hex s.manager "FlareTeeManager")) (λ _.
        then_do (or_fatal (address_has_code hex (some s.client) s.manager "FlareTeeManager"))
          (λ _. or_fatal (key_has_funds hex (some s.client) s.deployer min_deploy_balance)))

    abbrev pub written : String → Address → Io W (Option Address)
    written out_file address w =
        (ok (some address), if is_empty out_file then w else write_file out_file address w)

    abbrev pub deployed_unless : Bool → String → Io W (Option Address)
    deployed_unless true out_file = lift (ok none)
    deployed_unless false out_file = do
      address ← deploy_instruction_sender n c
      written out_file address

    -- `main` of deploy-contract: the address that it prints, if it deploys.
    unfoldable pub deploy_contract :
        (out_file : String) (preflight_only : Bool) → Io W (Option Address)
    unfolding preflight deploy_instruction_sender
    deploy_contract out_file preflight_only = do
      s ← lift support
      lift (preflight s)
      deployed_unless preflight_only out_file

  module _ (c : Registrar W Log) where
    -- `main` of register-extension: the id of the extension, which it prints in hex.
    unfoldable pub register_extension_command :
        (hex : Address → String) (hex_to_address : String → Address) (zero : Address)
        → String
        → Io W ℕ
    unfolding address_has_code setup_extension
    register_extension_command hex hex_to_address zero sender =
        if is_empty sender
        then lift (err "--instructionSender flag is required")
        else and_then (lift support) (λ s.
          and_then
            (lift (
              or_fatal
                (address_has_code hex (some s.client) (hex_to_address sender) "InstructionSender")))
            (λ _. setup_extension n c (hex_to_address sender) zero))

  module _ (m : Machines W) (hex_to_hash : String → Hash) where
    abbrev pub registered_from : RegisterFlags → Io W Done
    registered_from flags = do
      s ← lift support
      info ← tee_info m flags.proxy_url
      ids ← lift (tee_proxy_id m.keys info.signed)
      ftdc ← get_tee_proxy_id m flags.ftdc_url
      lift (get_code_hash_and_platform m hex_to_hash info)
      register_node n flags.state_file info.signed (host_of flags) flags.ftdc_url ftdc.0
          flags.command flags.instruction_id m.keys

    -- `main` of register-tee.
    unfoldable pub register_tee : RegisterFlags → Io W Done
    unfolding tee_info tee_proxy_id get_tee_proxy_id get_code_hash_and_platform register_node
    register_tee flags w = registered_from flags (started_with n flags w)

-- The error of a version that is there already is only logged.
abbrev pub tolerated : Result Done → Result Done
tolerated (ok d) = ok d
tolerated (err e) = if contains_text e "VersionAlreadyExists" then ok done else err e

-- allow-tee-version. A transaction is signed with a key, which the node and the contract take;
-- `support` gives the deployer's, `Prv`.
module _ {W Log PrivateKey : Type 0} (n : PrivateKey → Node W Log)
    (c : PrivateKey → Registrar W Log) (support : Result PrivateKey) (m : Machines W)
    (hex_to_ecdsa : String → Result PrivateKey)
    (is_supported : ℕ → Hash → Hash → W → Result Bool) where
  -- The owner's key, which is the deployer's where none is given.
  abbrev pub owner_key : PrivateKey → Result PrivateKey
  owner_key prv =
      let text = m.getenv "EXTENSION_OWNER_KEY" in
      if is_empty text then ok prv else hex_to_ecdsa (strip_either text)

  abbrev pub allowed_unless : Bool → PrivateKey → TeeInfoResponse → String → Io W Done
  allowed_unless true key info version w = (ok done, w)
  allowed_unless false key info version w =
      let (r, w') =
        add_tee_version (n key) (c key) info.extension_id info.code_hash info.platform version w in
      (tolerated r, w')

  -- `main` of allow-tee-version.
  unfoldable pub allow_tee_version : (proxy_url version : String) → Io W Done
  unfolding tee_info tee_proxy_id add_tee_version contains_text strip_either
  allow_tee_version proxy_url version = do
    prv ← lift support
    info ← tee_info m proxy_url
    priv_key ← lift (owner_key prv)
    ids ← lift (tee_proxy_id m.keys info.signed)
    supported ← (λ w. (is_supported info.extension_id info.code_hash info.platform w, w))
    allowed_unless supported priv_key info version
