-- ===== src/RunTest/Tests.antt =====
-- A run against an enclave that refuses the fourth instruction.
use mindorr.Prelude.{
  none, List, ℕ, ◌+◌, ◌≡◌, refl, ok, [], ◌∷◌, eqb, if◌then◌else◌, arith, replicate, length, ◌++◌,
  ◌-◌,
}
use mindorr.Registration.{Node, returned, done}
use mindorr.Registration.Sample.{quiet}
use mindorr.LiveServer.Proxy.{ActionResult}
use mindorr.Instructions.{SenderContract, send_bytes_op, instruction_fee, set_extension_id}
use mindorr.Instructions.Sending.{send_bytes_op-IsSent, IsSent}
use mindorr.RunTest.{
  send_policy, deliver_key, allocate_allowed, finish_result, send_and_decode, allocate_malicious,
  bind_extension, Tools, AllocateResponse, Run, run_test,
}
use mindorr.RunTest.Digest.{Padding, action_input}
use mindorr.RunTest.Digest.Encoding.{action_input-abi_encode, abi_encode, value, Pads, IsAction}
use mindorr.RunTest.Verified.{run_test-IsVerified, IsVerified}
use mindorr.RunTest.Expected.{key_bytes, verified, finished}
use mindorr.Registration.Requests.{ask_rounds, action_result}
use mindorr.Text.Search.{contains_text}
use mindorr.Text.Hex.{encode_hex}

-- The world counts the results that were asked for.
abbrev result_of : ℕ → ActionResult
result_of k = record { status = if eqb k 3 then 0 else 1; result_data = 1 ∷ []; log = "" }

abbrev number_in : List ℕ → ℕ
number_in [] = 0
number_in (k ∷ l) = k

abbrev enclave : Node ℕ ℕ
enclave = record (quiet ℕ) {
  get_result = λ u h w. (ok (200, w ∷ []), w + 1);
  decode_action = λ b. ok (result_of (number_in b));
}

abbrev contract : SenderContract ℕ
contract = record {
  tee_manager = 7 ∷ [];
  deploy = λ a b w. (returned (8 ∷ [], 3 ∷ []), w);
  bind = λ a. ok done;
  call_set_extension_id = λ a w. (returned (3 ∷ []), w);
  call_update_key = λ a v b w. (returned (3 ∷ []), w);
  call_create = λ a v b w. (returned (3 ∷ []), w);
  call_set_policy = λ a v b w. (returned (3 ∷ []), w);
  call_allocate = λ a v b w. (returned (3 ∷ []), w);
  call_withdraw = λ a v b w. (returned (3 ∷ []), w);
  pack = λ a m v b. none;
}

abbrev padding : Padding
padding = record { left_pad = λ bs l. replicate (l - length bs) 0 ++ bs; keccak = λ b. 171 ∷ [] }

abbrev answer : AllocateResponse
answer = record { digest = "0xAB"; signature = "0x01" }

abbrev tools : Tools ℕ
tools = record {
  PrivateKey = List ℕ;
  PublicKey = List ℕ;
  marshal_policy = λ p. ok [];
  marshal_allocate = λ a. ok [];
  decode_policy = λ b. ok (record { risk_level = "conservative"; allowed_venues = 1 });
  decode_update_key = λ b. ok "0xCD";
  decode_allocate = λ b. ok answer;
  to_ecdsa = λ b. ok b;
  public_key = λ k. k;
  pubkey_to_address = λ k. 9 ∷ [];
  sig_to_pub = λ h s. ok s;
  tee_info = λ u w. (ok [], w);
  parse_pub_key = λ b. ok b;
  encrypt = λ k b w. (ok b, w);
  hex_to_address = λ s. replicate 20 1;
  address_hex = λ a. "0xcd";
  padding = padding;
  fold = λ c. c;
}

abbrev run : Run
run = record {
  policy_set = record { risk_level = "conservative"; allowed_venues = 1 };
  managed_wallet = 9 ∷ [];
  answer = answer;
}

ran : run_test enclave contract tools "u" (5 ∷ []) "" 0 ≡ (ok run, 4)
unfolding run_test bind_extension send_policy deliver_key allocate_allowed allocate_malicious
    send_and_decode finish_result finished verified key_bytes set_extension_id send_bytes_op
    action_result ask_rounds contains_text encode_hex
ran = refl

run_test-IsVerified_example : IsVerified enclave contract tools "u" (5 ∷ []) "5000000000" 0 run 4
run_test-IsVerified_example = run_test-IsVerified enclave contract tools "u" (5 ∷ []) "" 0 4 run ran

pads : Pads padding
pads bs l = refl

small : IsAction 1 (replicate 20 1) 258 (replicate 20 2)
small = omega arith

action_input-abi_encode_example :
    action_input padding 1 (replicate 20 1) 258 (replicate 20 2)
    ≡ abi_encode (1 ∷ value (replicate 20 1) ∷ 258 ∷ value (replicate 20 2) ∷ [])
action_input-abi_encode_example =
    action_input-abi_encode padding pads 1 (replicate 20 1) 258 (replicate 20 2) small

sent_once :
    send_bytes_op enclave contract (5 ∷ []) "sendAllocate" [] contract.call_allocate 0
    ≡ (ok (4 ∷ [], 3 ∷ []), 0)
unfolding send_bytes_op
sent_once = refl

send_bytes_op-IsSent_example :
    IsSent enclave contract
      (contract.call_allocate (5 ∷ []) instruction_fee [])
      0
      (4 ∷ [], 3 ∷ [])
      0
send_bytes_op-IsSent_example =
    send_bytes_op-IsSent enclave contract (5 ∷ []) "sendAllocate" [] contract.call_allocate 0 0
      (4 ∷ [], 3 ∷ []) sent_once
