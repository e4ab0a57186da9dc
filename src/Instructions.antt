-- ===== src/Instructions.antt =====
-- The instructions that are sent through the sender contract:
-- extension/tools/pkg/utils/instructions.go.
pub mod Sending
use mindorr.Prelude.{
  ℕ, eqb, not, concat, if◌then◌else◌, Option, String, Result, List, ok, err, [], ◌∷◌, none, some,
}
use mindorr.Registration.{
  Io, ◌>>=◌, ◌>>◌, lift, then_do, Done, done, Called, returned, reverted, Receipt, Node,
}
use mindorr.Registration.Revert.{
  decode_revert_reason, decode_revert_hex, simulate_and_decode_revert,
}
use mindorr.Registration.Requests.{instruction_of}
use mindorr.Registration.Setup.{worded, worded_io}
use mindorr.Checks.Deploy.{Address}
use mindorr.Wire.{Hash}
use mindorr.Text.{is_empty}
use mindorr.Text.Hex.{encode_hex}
use mindorr.Text.Decimal.{decimal}

-- `InstructionFee`.
abbrev pub instruction_fee : ℕ
instruction_fee = 1000000

-- The binding of the sender contract: what sends a transaction gives its hash, and a deployment
-- gives the address of the new contract too. A method with a payload takes the value that is paid.
pub record SenderContract (W : Type 0) : Type 0 where
  pub tee_manager : Address
  pub deploy : (registry machines : Address) → W → Called (Address × Hash) × W
  pub bind : Address → Result Done
  pub call_set_extension_id : Address → W → Called Hash × W
  pub call_update_key : Address → (value : ℕ) → List ℕ → W → Called Hash × W
  pub call_create : Address → (value : ℕ) → List ℕ → W → Called Hash × W
  pub call_set_policy : Address → (value : ℕ) → List ℕ → W → Called Hash × W
  pub call_allocate : Address → (value : ℕ) → List ℕ → W → Called Hash × W
  pub call_withdraw : Address → (value : ℕ) → List ℕ → W → Called Hash × W
  -- The message that simulates the call of a method: none where the ABI does not pack it.
  pub pack : Address → String → (value : ℕ) → List (List ℕ) → Option (List ℕ)

-- An error text, with the reason where there is one.
abbrev with_reason : String → String → String
with_reason text reason =
    if is_empty reason then text else concat (text ∷ " (revert reason: " ∷ reason ∷ ")" ∷ [])

-- The two texts for a transaction that failed with a status.
abbrev failed_with : String → ℕ → String → String
failed_with name status reason =
    if is_empty reason
    then concat (name ∷ " transaction failed with status: " ∷ decimal status ∷ [])
    else concat (
        name
        ∷ " transaction failed with status "
        ∷ decimal status
        ∷ " (revert reason: "
        ∷ reason
        ∷ ")"
        ∷ [])

module _ {W Log : Type 0} (n : Node W Log) (c : SenderContract W) where
  abbrev pub deployed : Address → Hash → Result (Receipt Log) → Result Address
  deployed address tx (err e) =
      err (
        concat
          ("deployment tx not mined within 2 minutes (tx: 0x" ∷ encode_hex tx ∷ "): " ∷ e ∷ []))
  deployed address tx (ok receipt) =
      if not (eqb receipt.status 1) then err "contract deployment failed" else ok address

  abbrev pub deploying : Called (Address × Hash) × W → Result Address × W
  deploying (reverted e, w) = (err (concat ("failed to deploy contract: " ∷ e.message ∷ [])), w)
  deploying (returned (address, tx), w) =
      let (receipt, w') = n.wait_mined tx w in (deployed address tx receipt, w')

  -- `DeployInstructionSender`.
  unfoldable pub deploy_instruction_sender : Io W Address
  deploy_instruction_sender = do
    lift (worded "failed to create transactor: " n.transactor)
    λ w. deploying (c.deploy c.tee_manager c.tee_manager w)

  -- The reason that a simulated call gives.
  abbrev pub simulated_call : Option (List ℕ) → W → String
  simulated_call none w = ""
  simulated_call (some message) w = simulate_and_decode_revert n message w

  abbrev pub or_refused : String → (W → String) → Called Hash × W → Result Hash × W
  or_refused text simulate (returned tx, w) = (ok tx, w)
  or_refused text simulate (reverted e, w) =
      let reason = decode_revert_reason n e in
      (
        err (
            with_reason (concat (text ∷ e.message ∷ []))
              (if is_empty reason then simulate w else reason)),
        w,
      )

  abbrev set_on : (W → String) → Receipt Log → Io W Done
  set_on simulate receipt w =
      if not (eqb receipt.status 1)
      then (err (with_reason "setExtensionId transaction failed" (simulate w)), w)
      else (ok done, w)

  -- `SetExtensionId`.
  unfoldable pub set_extension_id : Address → Io W Done
  unfolding decode_revert_hex
  set_extension_id address = do
    let simulate = simulated_call (c.pack address "setExtensionId" 0 [])
    lift (worded "failed to bind contract: " (c.bind address))
    lift (worded "failed to create transactor: " n.transactor)
    tx ← (λ w.
        or_refused "failed to call setExtensionId: " simulate (c.call_set_extension_id address w))
    receipt ← (λ w. worded_io "failed waiting for transaction: " (n.wait_mined tx w))
    set_on simulate receipt

  abbrev pub first_instruction : Hash → List Log → Result (Hash × Hash)
  first_instruction tx [] = err "no logs found in receipt"
  first_instruction tx (first ∷ logs) = then_do (instruction_of n first) (λ id. ok (id, tx))

  abbrev pub sent_on : String → (W → String) → Hash → Receipt Log → Io W (Hash × Hash)
  sent_on name simulate tx receipt w =
      if not (eqb receipt.status 1)
      then (err (failed_with name receipt.status (simulate w)), w)
      else (first_instruction tx receipt.logs, w)

  -- `sendBytesOp`: the id of the instruction and the hash of the transaction, which the receipt
  -- repeats. `call` is the method that `name` names.
  unfoldable pub send_bytes_op :
      Address → String → List ℕ → (Address → ℕ → List ℕ → W → Called Hash × W) → Io W (Hash × Hash)
  unfolding decode_revert_hex
  send_bytes_op address name message call = do
    let simulate = simulated_call (c.pack address name instruction_fee (message ∷ []))
    lift (worded "failed to bind contract: " (c.bind address))
    lift (worded "failed to create transactor: " n.transactor)
    tx ← (λ w.
        or_refused (concat ("failed to send " ∷ name ∷ ": " ∷ [])) simulate
          (call address instruction_fee message w))
    receipt ← (λ w. worded_io "failed waiting for transaction: " (n.wait_mined tx w))
    sent_on name simulate tx receipt

  -- `SendUpdateKey`, `SendCreate`, `SendSetPolicy`, `SendAllocate` and `SendWithdraw`.
  abbrev pub send_update_key : Address → List ℕ → Io W (Hash × Hash)
  send_update_key address key = send_bytes_op address "sendUpdateKey" key c.call_update_key

  abbrev pub send_create : Address → List ℕ → Io W (Hash × Hash)
  send_create address user = send_bytes_op address "sendCreate" user c.call_create

  abbrev pub send_set_policy : Address → List ℕ → Io W (Hash × Hash)
  send_set_policy address policy = send_bytes_op address "sendSetPolicy" policy c.call_set_policy

  abbrev pub send_allocate : Address → List ℕ → Io W (Hash × Hash)
  send_allocate address intent = send_bytes_op address "sendAllocate" intent c.call_allocate

  abbrev pub send_withdraw : Address → List ℕ → Io W (Hash × Hash)
  send_withdraw address intent = send_bytes_op address "sendWithdraw" intent c.call_withdraw
