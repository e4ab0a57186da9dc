-- ===== src/RunTest.antt =====
-- The test run against a live extension: extension/tools/cmd/run-test/main.go. A step that ends the
-- program with an error is an error; the answers that are only printed are kept in `Run`.
pub mod Digest
pub mod Signed
pub mod Delivered
pub mod Verified
mod Tests
mod Types
mod Expected
pub use Types.*
unfoldable pub use Expected.*
use mindorr.Prelude.{
  code, length, ℕ, suc, not, eqb, concat, if◌then◌else◌, Bool, true, false, Char, Option, none,
  some, String, Result, ok, err, List, [], ◌∷◌, ◌==◌,
}
use Prim.Native.String
use mindorr.Text.{is_empty, to_lower}
use mindorr.Text.Hex.{decode_hex, encode_hex}
use mindorr.Wire.{Hash, same_hash}
use mindorr.Checks.Deploy.{Address}
use mindorr.LiveServer.Proxy.{ActionResult}
use mindorr.Registration.{then_do, Io, ◌>>=◌, ◌>>◌, lift, and_then, Done, done, Node}
use mindorr.Registration.Requests.{action_result}
use mindorr.Registration.Setup.{worded, worded_io}
use mindorr.Instructions.{
  SenderContract, set_extension_id, send_set_policy, send_update_key, send_allocate,
}
use mindorr.RunTest.Digest.{Padding, action_digest, set_string, normalize_v, hex_to_bytes}
use mindorr.Text.Decimal.{decimal}
use mindorr.Text.Search.{equal_fold, contains_text}

-- The parameters that the run prints in the end.
pub record Run : Type 0 where
  pub policy_set : SetPolicyResponse
  pub managed_wallet : Address
  pub answer : AllocateResponse

module _ {W Log : Type 0} (n : Node W Log) (c : SenderContract W) (t : Tools W) (proxy : String)
    (sender : Address) where
  open t use {PrivateKey, PublicKey}

  -- `finishResult`.
  unfoldable pub finish_result :
      {A : Type 0} → String → Hash → A → (List ℕ → Result A) → Bool → Io W A
  unfolding action_result finished
  finish_result label id out decode expect_refusal = do
    res ← (λ w.
        worded_io (concat (label ∷ " poll failed: " ∷ [])) (action_result n proxy id (n.sleep 6 w)))
    lift (finished label out decode expect_refusal res)

  -- `sendAndDecode`, which `sendBytesAndDecode` only calls.
  unfoldable pub send_and_decode :
      {A : Type 0}
      → String
      → List ℕ
      → (Address → List ℕ → Io W (Hash × Hash))
      → A
      → (List ℕ → Result A)
      → Bool
      → Io W A
  unfolding finish_result
  send_and_decode label payload send out decode expect_refusal = do
    ids ← (λ w. worded_io (concat (label ∷ " send failed: " ∷ [])) (send sender payload w))
    finish_result label ids.0 out decode expect_refusal

  -- The extension's id is bound, or was bound before.
  unfoldable pub bind_extension : Io W Done
  unfolding set_extension_id contains_text
  bind_extension w = let (r, w') = set_extension_id n c sender w in (continues r, w')

  abbrev test_policy : PolicyPayload
  test_policy = record {
    owner = t.address_hex n.sender;
    return_address = t.address_hex n.sender;
    risk_level = "conservative";
    asset = fxrp;
    allowed_venues = allowed_venue ∷ [];
    max_venue_bps = 10000;
    max_tx_amount = "1000000000000000";
    min_health_factor_bps = 10000;
  }

  -- Step 1.
  unfoldable pub send_policy : Io W SetPolicyResponse
  unfolding send_and_decode
  send_policy = do
    payload ← lift (t.marshal_policy test_policy)
    send_and_decode "SET_POLICY" payload (send_set_policy n c)
        (record { risk_level = ""; allowed_venues = 0 }) t.decode_policy false

  -- Step 2: the managed wallet.
  unfoldable pub deliver_key : Io W Address
  unfolding send_and_decode equal_fold
  deliver_key = do
    bytes ← lift key_bytes
    managed_key ← lift (worded "bad managed key: " (t.to_ecdsa bytes))
    let managed_wallet = t.pubkey_to_address (t.public_key managed_key)
    info ← (λ w. worded_io "fetch TEE info: " (t.tee_info proxy w))
    tee_key ← lift (worded "parse TEE pubkey: " (t.parse_pub_key info))
    ciphertext ← (λ w. worded_io "ECIES encrypt: " (t.encrypt tee_key bytes w))
    wallet ←
        send_and_decode "UPDATE_KEY" ciphertext (send_update_key n c) "" t.decode_update_key false
    lift (loaded t managed_wallet wallet)

  -- Step 3.
  unfoldable pub allocate_allowed : Address → String → Io W AllocateResponse
  unfolding send_and_decode verified
  allocate_allowed managed_wallet alloc_amount = do
    payload ← lift (t.marshal_allocate (allocation alloc_amount allowed_venue))
    answer ←
        send_and_decode "ALLOCATE" payload (send_allocate n c)
          (record { digest = ""; signature = "" }) t.decode_allocate false
    lift (verified t managed_wallet alloc_amount answer)
    lift (ok answer)

  -- Step 4.
  unfoldable pub allocate_malicious : String → Io W Done
  unfolding send_and_decode
  allocate_malicious alloc_amount = do
    payload ← lift (t.marshal_allocate (allocation alloc_amount attacker_venue))
    send_and_decode "ALLOCATE(malicious)" payload (send_allocate n c) done (λ _. ok done) true

  -- `main`, behind the flags and `DefaultSupport`, with what ALLOC_AMOUNT holds.
  unfoldable pub run_test : String → Io W Run
  unfolding bind_extension send_policy deliver_key allocate_allowed allocate_malicious
  run_test amount_env = do
    let alloc_amount = unset amount_env
    bind_extension
    policy_set ← send_policy
    managed_wallet ← deliver_key
    answer ← allocate_allowed managed_wallet alloc_amount
    allocate_malicious alloc_amount
    lift (ok (record { policy_set = policy_set; managed_wallet = managed_wallet; answer = answer }))
