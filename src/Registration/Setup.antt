-- ===== src/Registration/Setup.antt =====
-- The set-up of an extension: extension/tools/pkg/fccutils/extension.go, and `AddTeeVersion` of
-- extension/tools/pkg/fccutils/registration.go.
pub mod Granted
pub mod Sample
mod Tests
use mindorr.Prelude.{length, Bool, concat, ℕ, List, Result, String, ok, err, [], ◌∷◌, true, false}
use mindorr.Registration.{lift, and_then, Done, then_do, Io, Called, Node, done}
use mindorr.Checks.Deploy.{Address}
use mindorr.Registration.Revert.{check_tx}
use mindorr.Wire.{string_to_bytes32, Hash}
use mindorr.Registration.Requests.{sent}
use mindorr.Text.Decimal.{decimal}

-- The calls of the extension's contracts: those that send a transaction, those that ask, and the
-- parsing of their events.
pub record Registrar (W Log : Type 0) : Type 0 where
  pub register : Address → Address → W → Called Hash × W
  pub add_tee_machine_owners : ℕ → List Address → W → Called Hash × W
  pub add_wallet_project_owners : ℕ → List Address → W → Called Hash × W
  pub add_supported_key_types : ℕ → List Hash → W → Called Hash × W
  pub add_tee_version : ℕ → Hash → Hash → List Hash → W → Called Hash × W
  pub is_tee_machine_owner : ℕ → Address → W → Result Bool
  pub is_wallet_project_owner : ℕ → Address → W → Result Bool
  pub is_key_type_supported : ℕ → Hash → W → Result Bool
  pub parse_extension_registered : Log → Result ℕ
  pub parse_contracts_set : Log → Result Done
  pub parse_machine_owners_added : Log → Result Done
  pub parse_project_owners_added : Log → Result Done
  pub evm_type : Hash

-- An error with the words in front of it, the value as it is.
abbrev pub worded : {A : Type 0} → String → Result A → Result A
worded text (err e) = err (concat (text ∷ e ∷ []))
worded text (ok a) = ok a

abbrev pub worded_io : {W A : Type 0} → String → Result A × W → Result A × W
worded_io text (r, w) = (worded text r, w)

-- One step of the set-up, by what the chain answers: an error, nothing to do, or the transaction.
abbrev pub grant_where : {W : Type 0} → Result Bool → String → Io W Done → Io W Done
grant_where (err e) text grant w = (err (concat (text ∷ e ∷ [])), w)
grant_where (ok true) text grant w = (ok done, w)
grant_where (ok false) text grant w = grant w

module _ {W Log : Type 0} (n : Node W Log) (c : Registrar W Log) where
  -- A call that sends a transaction, the waiting for it, and what is read from its logs.
  abbrev pub transact :
      {A : Type 0} → String → String → (W → Called Hash × W) → (List Log → Result A) → Io W A
  transact failed unmined call read =
      and_then (λ w. sent n (λ e. concat (failed ∷ e ∷ [])) (call w))
        (λ tx.
          and_then (λ w. worded_io unmined (check_tx n tx w)) (λ receipt. lift (read receipt.logs)))

  abbrev pub registered_id : List Log → Result ℕ
  registered_id (first ∷ second ∷ logs) =
      then_do
        (worded "failed to parse TeeExtensionRegistered event: "
          (c.parse_extension_registered first))
        (λ id.
          then_do
            (worded "failed to parse TeeExtensionContractsSet event: "
              (c.parse_contracts_set second))
            (λ _. ok id))
  registered_id logs = err (
      concat (
        "expected at least 2 logs from Register() transaction, got "
        ∷ decimal (length logs)
        ∷ " — the registry contract may have changed or be behind a proxy"
        ∷ []))

  -- `registerExtension`: the id of the new extension.
  unfoldable pub register_extension : (instructions_sender state_verifier : Address) → Io W ℕ
  unfolding check_tx
  register_extension instructions_sender state_verifier =
      transact "TeeExtensionRegistry.Register failed: " "Register transaction failed: "
        (c.register state_verifier instructions_sender) registered_id

  abbrev added : String → (Log → Result Done) → List Log → Result Done
  added name parse [] = err (concat ("no logs in Add" ∷ name ∷ " transaction — unexpected" ∷ []))
  added name parse (first ∷ logs) =
      worded (concat ("failed to parse " ∷ name ∷ "Added event: " ∷ [])) (parse first)

  -- `allowTeeMachineOwners`.
  unfoldable pub allow_tee_machine_owners : ℕ → List Address → Io W Done
  unfolding check_tx
  allow_tee_machine_owners id owners =
      transact "AddAllowedTeeMachineOwners failed: "
        "AddAllowedTeeMachineOwners transaction failed: " (c.add_tee_machine_owners id owners)
        (added "AllowedTeeMachineOwners" c.parse_machine_owners_added)

  -- `allowTeeProjectManagerOwners`.
  unfoldable pub allow_tee_project_manager_owners : ℕ → List Address → Io W Done
  unfolding check_tx
  allow_tee_project_manager_owners id owners =
      transact "AddAllowedTeeWalletProjectOwners failed: "
        "AddAllowedTeeWalletProjectOwners transaction failed: "
        (c.add_wallet_project_owners id owners)
        (added "AllowedTeeWalletProjectOwners" c.parse_project_owners_added)

  -- `AddSupportedKeyTypes` with `addSupportedKeyTypesTx`.
  unfoldable pub add_supported_key_types : ℕ → List Hash → Io W Done
  unfolding check_tx
  add_supported_key_types id key_types =
      and_then (lift n.transactor)
        (λ _. transact "" "" (c.add_supported_key_types id key_types) (λ logs. ok done))

  abbrev pub ensure : (W → Result Bool) → String → Io W Done → Io W Done
  ensure known text grant w = grant_where (known w) text grant w

  abbrev owners_failed : String → ℕ → String
  owners_failed what id = concat (
      "failed adding "
      ∷ what
      ∷ " owners (extension exists as ID "
      ∷ decimal id
      ∷ " but owners not set): "
      ∷ [])

  -- The three steps behind the registration.
  unfoldable pub set_up : ℕ → Io W Done
  unfolding allow_tee_machine_owners allow_tee_project_manager_owners add_supported_key_types
  set_up id =
      and_then
        (ensure (c.is_tee_machine_owner id n.sender) "failed checking TEE machine owner status: "
          (λ w.
            worded_io (owners_failed "TEE machine" id)
              (allow_tee_machine_owners id (n.sender ∷ []) w)))
        (λ _.
          and_then
            (ensure (c.is_wallet_project_owner id n.sender)
              "failed checking wallet project owner status: "
              (λ w.
                worded_io (owners_failed "wallet project" id)
                  (allow_tee_project_manager_owners id (n.sender ∷ []) w)))
            (λ _.
              ensure (c.is_key_type_supported id c.evm_type) ""
                (add_supported_key_types id (c.evm_type ∷ []))))

  -- `SetupExtension`.
  unfoldable pub setup_extension : (instructions_sender state_verifier : Address) → Io W ℕ
  unfolding set_up register_extension
  setup_extension instructions_sender state_verifier = and_then (lift n.transactor) (λ _.
      and_then (register_extension instructions_sender state_verifier)
        (λ id. and_then (set_up id) (λ _. lift (ok id))))

  -- `AddTeeVersion`.
  unfoldable pub add_tee_version : ℕ → (code_hash platform : Hash) → String → Io W Done
  unfolding check_tx string_to_bytes32
  add_tee_version id code_hash platform version = and_then (lift n.transactor) (λ _.
      and_then (lift (string_to_bytes32 version)) (λ bytes.
        transact "TeeExtensionRegistry.AddTeeVersion failed: " ""
          (c.add_tee_version id bytes code_hash (platform ∷ [])) (λ logs. ok done)))
