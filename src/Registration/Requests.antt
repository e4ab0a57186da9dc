-- ===== src/Registration/Requests.antt =====
-- The transactions of a registration: `PreRegistration`, `RequestTeeAttestation`,
-- `RequestFTDCAvailabilityCheck`, `GetFTDCAvailabilityCheckResult` and `ToProduction` of
-- extension/tools/pkg/fccutils/registration.go, and `ActionResult` of
-- extension/tools/pkg/fccutils/tee_calls.go.
use mindorr.Prelude.{
  length, not, concat, if◌then◌else◌, Bool, take, Option, String, Result, ℕ, List, ok, err, [], ◌∷◌,
  none, some, true, false, eqb, zero, suc,
}
use mindorr.Registration.{
  then_do, done, Done, lift, returned, and_then, reverted, Proof, Io, Called, CallError, Register,
  Node,
}
use mindorr.Checks.Deploy.{Address}
use mindorr.Registration.Revert.{
  decode_revert_hex, decode_revert_reason, simulate_and_decode_revert, match_custom_error, check_tx,
}
use mindorr.Wire.{same_hash, Hash}
use mindorr.Text.{is_empty}
use mindorr.Text.Decimal.{decimal}
use mindorr.LiveServer.Proxy.{ActionResult}

abbrev byte_at_0 : List ℕ → ℕ
byte_at_0 [] = 0
byte_at_0 (b ∷ bs) = b

-- `l[k:]`.
abbrev pub drop : ℕ → List ℕ → List ℕ
drop zero l = l
drop (suc k) [] = []
drop (suc k) (x ∷ l) = drop k l

-- `repeats`.
abbrev pub repeats : ℕ
repeats = 15

module _ {W Log : Type 0} (n : Node W Log) where
  -- The event of an instruction, from a log.
  abbrev pub instruction_of : Log → Result Hash
  instruction_of log = elim (n.parse_instructions_sent log) [
    | err e ↦ err (concat ("failed to parse TeeInstructionsSent event: " ∷ e ∷ []))
    | ok id ↦ ok id
  ]

  -- The logs of a pre-registration: the challenge and the instruction.
  abbrev pub registered_logs : List Log → Result (Hash × Hash)
  registered_logs (first ∷ second ∷ logs) = elim (n.parse_attestation_requested second) [
    | err e ↦ err (concat ("failed to parse TeeAttestationRequested event: " ∷ e ∷ []))
    | ok challenge ↦ elim (instruction_of first) [ err e ↦ err e | ok id ↦ ok (challenge, id) ]
  ]
  registered_logs _ = err "unexpected logs, this should not happen"

  -- The reason of a `register` that reverts: the custom error, what the call says, or the message.
  abbrev simulated_reason : String → Option (List ℕ) → W → String
  simulated_reason reason none w = reason
  simulated_reason reason (some call) w =
      let raw = simulate_and_decode_revert n call w in
      let named = match_custom_error n raw in
      if not (is_empty named) then named else if is_empty reason then raw else reason

  abbrev register_reason : Register → CallError → W → String
  register_reason args e w =
      let reason = simulated_reason (decode_revert_reason n e) (n.pack_register args) w in
      if is_empty reason then e.message else reason

  abbrev sent_register : Register → Called Hash × W → Result (Hash × Hash) × W
  sent_register args (reverted e, w) =
      (err (concat ("register() reverted: " ∷ register_reason args e w ∷ [])), w)
  sent_register args (returned tx, w) =
      and_then (check_tx n tx) (λ receipt. lift (registered_logs receipt.logs)) w

  -- What `PreRegistration` sends, with the parts of the transformed signature.
  abbrev pub register_args : List ℕ → Address → String → List ℕ → Register
  register_args machine_data proxy_id host_url vrs = record {
    machine_data = machine_data;
    v = byte_at_0 vrs;
    r = take 32 (drop 1 vrs);
    s = take 32 (drop 33 vrs);
    proxy_id = proxy_id;
    host_url = host_url;
    claim_back = n.sender;
  }

  -- `PreRegistration`.
  unfoldable pub pre_registration :
      String → Address → (machine_data data_signature : List ℕ) → Io W (Hash × Hash)
  unfolding check_tx match_custom_error decode_revert_hex
  pre_registration host_url proxy_id machine_data data_signature =
      and_then (lift n.transactor) (λ _.
        if not (eqb (length data_signature) 65)
        then lift (err "signature error")
        else and_then (lift (n.transform_signature data_signature)) (λ vrs w.
          let args = register_args machine_data proxy_id host_url vrs in
          sent_register args (n.register args w)))

  abbrev pub sent : (String → String) → Called Hash × W → Result Hash × W
  sent text (reverted e, w) = (err (text e.message), w)
  sent text (returned tx, w) = (ok tx, w)

  abbrev attested_logs : List Log → Result Hash
  attested_logs (first ∷ second ∷ logs) = instruction_of first
  attested_logs _ = err "unexpected logs, this should not happen"

  -- `RequestTeeAttestation`.
  unfoldable pub request_tee_attestation : Address → Io W Hash
  unfolding check_tx
  request_tee_attestation tee_id = and_then (lift n.transactor) (λ _.
      and_then
        (λ w. sent (λ e. concat ("error: " ∷ e ∷ [])) (n.request_tee_attestation tee_id n.sender w))
        (λ tx. and_then (check_tx n tx) (λ receipt. lift (attested_logs receipt.logs))))

  abbrev checked_logs : List Log → Result Hash
  checked_logs (first ∷ logs) = instruction_of first
  checked_logs [] = err "no logs found in receipt"

  -- `RequestFTDCAvailabilityCheck`; the diagnosis of a revert, which only writes to the log, is
  -- that of Audit/Diagnosis.
  unfoldable pub request_ftdc_availability_check :
      (tee_id external_tee_id : Address) → Hash → Io W Hash
  unfolding check_tx
  request_ftdc_availability_check tee_id external_tee_id instruction_id =
      and_then (lift n.transactor) (λ _.
        and_then
          (λ w.
            sent (λ e. e)
              (n.request_availability_check tee_id instruction_id external_tee_id n.sender w))
          (λ tx. and_then (check_tx n tx) (λ receipt. lift (checked_logs receipt.logs))))

  abbrev pub is_answer : Result (ℕ × List ℕ) → Bool
  is_answer (err e) = false
  is_answer (ok (status, body)) = eqb status 200

  -- The loop of `ActionResult`: the last answer, or the first with status 200.
  unfoldable pub ask_rounds : ℕ → String → Hash → Result (ℕ × List ℕ) → W → Result (ℕ × List ℕ) × W
  ask_rounds zero url id last w = (last, w)
  ask_rounds (suc k) url id last w =
      let answer = n.get_result url id w in
      elim (is_answer answer.0) [
        | true ↦ answer
        | false ↦ ask_rounds k url id answer.0 (n.sleep 2 answer.1)
      ]

  abbrev pub answer_body : ℕ × List ℕ → Result ActionResult
  answer_body (status, body) =
      if eqb status 200
      then n.decode_action body
      else err (concat ("action result status not ok, got: " ∷ decimal status ∷ []))

  -- `ActionResult`: the result that the answer holds.
  unfoldable pub action_result : String → Hash → Io W ActionResult
  unfolding ask_rounds
  action_result url id =
      and_then (ask_rounds repeats url id (err "")) (λ answer. lift (answer_body answer))

  -- The proof that the data of a result holds; the fields of its parts are only copied.
  unfoldable pub proof_of : List ℕ → Result Proof
  proof_of answer = then_do (n.decode_prove_response answer) (λ found.
      then_do (n.decode_header found.response_header) (λ header.
        then_do (n.decode_request found.request_body) (λ request.
          then_do (n.decode_response found.response_body) (λ response. ok (record {
            signatures = found.signatures;
            header = header;
            tee_id = request.0;
            request_rest = request.1;
            response = response;
          })))))

  -- `GetFTDCAvailabilityCheckResult`.
  unfoldable pub get_ftdc_availability_check_result : String → Hash → Io W Proof
  unfolding action_result proof_of
  get_ftdc_availability_check_result url id =
      and_then (action_result url id) (λ answer. lift (proof_of answer.result_data))

  abbrev pub in_production : Address → Result Address → Result Done
  in_production tee_id (err e) = err e
  in_production tee_id (ok registered) =
      if same_hash registered tee_id then ok done else err "tee machine not set up correctly"

  -- `ToProduction`.
  unfoldable pub to_production : Proof → Io W Done
  unfolding check_tx
  to_production proof = and_then (lift n.transactor) (λ _.
      and_then (λ w. sent (λ e. e) (n.to_production proof w))
        (λ tx.
          and_then (check_tx n tx)
            (λ receipt w. (in_production proof.tee_id (n.get_tee_machine proof.tee_id w), w))))
