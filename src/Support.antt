-- ===== src/Support.antt =====
-- What every command starts from: `DefaultSupport`, `DefaultPrivateKey`, `NewSupport`,
-- `ParseAddresses` and `fieldMap` of extension/tools/pkg/support/support.go, and `ReadAddresses` of
-- extension/tools/pkg/configs/configs.go.
pub mod LastEntry
mod Tests
use mindorr.Prelude.{
  ℕ, code, eqb, ◌&&◌, ◌||◌, Bool, Option, none, some, String, Result, ok, err, List, [], ◌∷◌, map,
  ◌==◌, if◌then◌else◌, replicate,
}
use mindorr.Text.{is_empty}
use mindorr.Checks.Deploy.{Address}
use mindorr.Registration.{Done, done, then_do}

-- `RawContract`, without the name of the contract, which is never read.
pub record RawContract : Type 0 where
  pub name : String
  pub address : String

pub record Addresses : Type 0 where
  pub flare_system_manager : Address
  pub fdc2_hub : Address
  pub flare_tee_manager : Address

-- The fields of `Addresses`, all of them addresses, with the name and the tag that `reflect` gives.
pub data Field : Type 0 where
  system_manager hub tee_manager : Field

abbrev field_name : Field → String
field_name system_manager = "FlareSystemManager"
field_name hub = "Fdc2Hub"
field_name tee_manager = "FlareTeeManager"

abbrev tag : Field → String
tag system_manager = "FlareSystemsManager"
tag hub = "Fdc2Hub"
tag tee_manager = "FlareTeeManager"

abbrev pub key : Field → String
key f = if is_empty (tag f) || tag f == "-" then field_name f else tag f

-- `fieldMap`.
abbrev pub field_map : List (String × Field)
field_map = map (λ f. (key f, f)) (system_manager ∷ hub ∷ tee_manager ∷ [])

abbrev pub target : String → List (String × Field) → Option Field
target name [] = none
target name ((k, f) ∷ fields) = let rest = target name fields in if k == name then some f else rest

-- A field, read and written.
abbrev pub get : Field → Addresses → Address
get system_manager a = a.flare_system_manager
get hub a = a.fdc2_hub
get tee_manager a = a.flare_tee_manager

abbrev pub set : Field → Address → Addresses → Addresses
set system_manager x a = record a { flare_system_manager = x }
set hub x a = record a { fdc2_hub = x }
set tee_manager x a = record a { flare_tee_manager = x }

abbrev pub zero_address : Address
zero_address = replicate 20 0

abbrev pub no_addresses : Addresses
no_addresses = record {
  flare_system_manager = zero_address;
  fdc2_hub = zero_address;
  flare_tee_manager = zero_address;
}

module _ (hex_to_address : String → Address) where
  -- One round of the loop of `ParseAddresses`.
  abbrev pub take_contract : RawContract → Addresses → Addresses
  take_contract c addrs = elim (target c.name field_map) [
    | none ↦ addrs
    | some f ↦ set f (hex_to_address c.address) addrs
  ]

  unfoldable pub addresses_from : Addresses → List RawContract → Addresses
  addresses_from addrs [] = addrs
  addresses_from addrs (c ∷ raw) = addresses_from (take_contract c addrs) raw

-- The file's bytes, and the two readings of them.
pub record AddressFile : Type 0 where
  pub content : Result (List ℕ)
  pub decode_raw : List ℕ → Result (List RawContract)
  pub decode_addresses : List ℕ → Result Addresses
  pub hex_to_address : String → Address

-- `ParseAddresses`.
unfoldable pub parse_addresses : AddressFile → Result Addresses
unfolding addresses_from
parse_addresses f = then_do f.content (λ bytes.
    then_do (f.decode_raw bytes) (λ raw. ok (addresses_from f.hex_to_address no_addresses raw)))

-- `ReadAddresses`.
abbrev pub read_addresses : AddressFile → Result Addresses
read_addresses f = then_do f.content f.decode_addresses

abbrev pub addresses_of : AddressFile → Result Addresses
addresses_of f = elim (read_addresses f) [ ok a ↦ ok a | err e ↦ parse_addresses f ]

-- `privKeyString[2:]` behind "0x" or "0X".
unfoldable pub strip_either : String → String
strip_either (String.◌∷◌ c (String.◌∷◌ d s)) =
    if eqb (code c) b'0' && (eqb (code d) b'x' || eqb (code d) b'X')
    then s
    else String.◌∷◌ c (String.◌∷◌ d s)
strip_either s = s

-- The contracts that `NewSupport` binds, in order.
pub data Facet : Type 0 where
  machine_manager wallet_manager wallet_key_manager wallet_project_manager : Facet
  flare_systems_manager fdc2_hub verification extension_manager : Facet
  owner_allowlist extension_governance : Facet

-- Keys, the bindings and the chain: `getenv` is the environment behind `godotenv.Load`.
pub record Setting : Type 1 where
  pub PrivateKey : Type 0
  pub getenv : String → String
  pub hex_to_ecdsa : String → Result PrivateKey
  pub prv_with_funds : PrivateKey
  pub bind : Facet → Address → Result Done
  pub dial : Result Done
  pub chain_id : Result ℕ

module _ (s : Setting) where
  open s use {PrivateKey}

  -- `Support`, without the bindings.
  pub record Support : Type 0 where
    pub prv : PrivateKey
    pub chain_id : ℕ
    pub addresses : Addresses

  -- `DefaultPrivateKey`.
  unfoldable pub default_private_key : Result PrivateKey
  unfolding strip_either
  default_private_key =
      let text = s.getenv "DEPLOYMENT_PRIVATE_KEY" in
      if is_empty text then ok s.prv_with_funds else s.hex_to_ecdsa (strip_either text)

  -- The address that a contract is bound to: the diamond, but for two.
  abbrev bound_to : Addresses → Facet → Address
  bound_to addresses flare_systems_manager = addresses.flare_system_manager
  bound_to addresses fdc2_hub = addresses.fdc2_hub
  bound_to addresses facet = addresses.flare_tee_manager

  unfoldable pub bind_all : Addresses → List Facet → Result Done
  bind_all addresses [] = ok done
  bind_all addresses (facet ∷ facets) =
      let rest = bind_all addresses facets in
      then_do (s.bind facet (bound_to addresses facet)) (λ _. rest)

  abbrev facets : List Facet
  facets =
      machine_manager ∷ wallet_manager ∷ wallet_key_manager ∷ wallet_project_manager
      ∷ flare_systems_manager ∷ fdc2_hub ∷ verification ∷ extension_manager ∷ owner_allowlist
      ∷ extension_governance ∷ []

  -- `NewSupport`.
  unfoldable pub new_support : PrivateKey → Addresses → Result Support
  unfolding bind_all
  new_support prv addresses = then_do (bind_all addresses facets) (λ _.
      then_do s.chain_id (λ id. ok (record { prv = prv; chain_id = id; addresses = addresses })))

  -- `DefaultSupport`.
  unfoldable pub default_support : AddressFile → Result Support
  unfolding parse_addresses default_private_key new_support
  default_support f = then_do (addresses_of f) (λ addresses.
      then_do s.dial (λ _. then_do default_private_key (λ prv. new_support prv addresses)))
