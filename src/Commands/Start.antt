-- ===== src/Commands/Start.antt =====
-- The start of the extension: `setProxyURL` and `setOwnerAddress` of
-- extension/go/cmd/start-tee/main.go, and `intEnv` of extension/go/cmd/docker/main.go. The processes
-- that use them are in the modules below.
pub mod Hosts
pub mod Running
pub mod Proxy
mod Tests
use mindorr.Prelude.{ℕ, if◌then◌else◌, Option, none, some, String, Result, ok, ◌==◌}
use mindorr.Text.{is_empty}
use mindorr.Checks.Deploy.{Address}
use mindorr.Registration.{Io, Done, then_do}
use mindorr.Registration.Machine.{Machines, set_proxy_url}
use mindorr.Support.{strip_either}

-- The environment as a function, and one variable set.
abbrev pub set_env : String → String → (String → String) → String → String
set_env key value getenv asked = if key == asked then value else getenv asked

abbrev pub default_owner_key : String
default_owner_key = "804b01a8c27a65cc694a867be76edae3ccce7a7161cda1f67a8349df696d2207"

-- `crypto.HexToECDSA`, the address of a key, `Address.String` and `common.HexToAddress`.
pub record OwnerKeys : Type 1 where
  pub PrivateKey : Type 0
  pub hex_to_ecdsa : String → Result PrivateKey
  pub address_of : PrivateKey → Address
  pub address_text : Address → String
  pub hex_to_address : String → Address

module _ (k : OwnerKeys) where
  open k use {PrivateKey}

  -- The deployment key, or the default one.
  abbrev pub deployment_key : (String → String) → Result PrivateKey
  deployment_key getenv =
      let text = getenv "DEPLOYMENT_PRIVATE_KEY" in
      if is_empty text then k.hex_to_ecdsa default_owner_key else k.hex_to_ecdsa (strip_either text)

  -- `setOwnerAddress`: the environment behind it, and the address that it gives, which is read from
  -- the text that was there before.
  unfoldable pub set_owner_address : (String → String) → Result ((String → String) × Address)
  unfolding strip_either
  set_owner_address getenv =
      let owner = getenv "INITIAL_OWNER" in
      if is_empty owner
      then then_do (deployment_key getenv) (λ key. ok (
        set_env "INITIAL_OWNER" (k.address_text (k.address_of key)) getenv,
        k.hex_to_address owner,
      ))
      else ok (getenv, k.hex_to_address owner)

-- `setProxyURL`, which does what `SetProxyUrl` of the tools does.
abbrev pub point_node : {W : Type 0} → Machines W → (configuration_port proxy_port : ℕ) → Io W Done
point_node m configuration_port proxy_port = set_proxy_url m configuration_port proxy_port

-- `intEnv`; `strconv.Atoi` is the argument `atoi`, with its errors as none.
abbrev pub int_env : {N : Type 0} → (String → Option N) → (String → String) → String → N → N
int_env atoi getenv key fallback = elim (atoi (getenv key)) [ some v ↦ v | none ↦ fallback ]
