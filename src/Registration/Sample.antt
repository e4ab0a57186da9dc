-- ===== src/Registration/Sample.antt =====
-- A chain for tests, on any world: every transaction is mined with two events, nothing is refused and
-- nothing changes.
use mindorr.Prelude.{ℕ, ok, err, [], ◌∷◌, none, some}
use mindorr.Registration.{Node, Receipt, done, returned, missing}
use mindorr.Checks.Deploy.{Address}

abbrev pub tee : Address
tee = 1 ∷ []

abbrev pub mined_receipt : Receipt ℕ
mined_receipt = record { status = 1; logs = 4 ∷ 5 ∷ [] }

abbrev pub quiet : (W : Type 0) → Node W ℕ
quiet W = record {
  transactor = ok done;
  sender = 2 ∷ [];
  register = λ a w. (returned (3 ∷ []), w);
  request_tee_attestation = λ a b w. (returned (3 ∷ []), w);
  request_availability_check = λ a h b c w. (returned (3 ∷ []), w);
  to_production = λ p w. (returned (3 ∷ []), w);
  get_tee_machine = λ a w. ok tee;
  wait_mined = λ h w. (ok mined_receipt, w);
  transaction = λ h w. ok [];
  call_contract = λ m w. returned [];
  unpack_revert = λ b. none;
  pack_register = λ a. none;
  custom_errors = [];
  parse_instructions_sent = λ l. ok (l ∷ []);
  parse_attestation_requested = λ l. ok (l ∷ []);
  transform_signature = λ b. ok b;
  get_result = λ u h w. (err "refused", w);
  sleep = λ k w. w;
  decode_action = λ b. err "EOF";
  decode_prove_response = λ b. err "EOF";
  decode_header = λ b. ok b;
  decode_request = λ b. ok (tee, b);
  decode_response = λ b. ok b;
  reward_epoch = λ w. ok (some 7);
  last_signing_policy = λ u w. ok 8;
  read_state = λ p w. missing;
  write_state = λ p st w. (ok done, w);
  remove_state = λ p w. w;
}
