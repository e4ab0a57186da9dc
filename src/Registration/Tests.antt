-- ===== src/Registration/Tests.antt =====
-- A node whose world is the state file, and runs on it.
use mindorr.Registration.Requests.{request_tee_attestation, to_production}
use mindorr.Registration.{StateFile, RegistrationState, Proof, Node, done, missing, holds}
use mindorr.Registration.RegisterNode.{
  first_step, later_steps, pre_registered, register_node, tee_proxy_id, Keys, SignedInfo, contains,
  do_step, pre,
}
use mindorr.Registration.Waiting.{answers_at, action_result_first}
use mindorr.Registration.Requests.{action_result}
use mindorr.Registration.Sample.{quiet, tee}
use mindorr.Prelude.{false, zero, suc, ◌<◌, ℕ, ◌≡◌, refl, ok, [], ◌∷◌, true, arith}
use mindorr.Registration.Revert.{check_tx}
use mindorr.LiveServer.Proxy.{ActionResult}
use mindorr.Registration.Outcomes.{to_production-registered}
use mindorr.Registration.Resume.{register_node-resumes, do_step-once}

-- The machine `tee` is registered; the file holds what is written.
abbrev node : Node StateFile ℕ
node = record (quiet StateFile) {
  read_state = λ p w. w;
  write_state = λ p st w. (ok done, holds st);
  remove_state = λ p w. missing;
}

abbrev proof : Proof
proof = record { signatures = []; header = []; tee_id = tee; request_rest = []; response = [] }

produced_proof : to_production node proof missing ≡ (ok done, missing)
unfolding to_production check_tx
produced_proof = refl

registered_by_proof : node.get_tee_machine tee missing ≡ ok tee
registered_by_proof = to_production-registered node proof missing missing produced_proof

abbrev fresh : RegistrationState
fresh = record { completed_steps = ""; tee_attest_instruction_id = []; instruction_id = [] }

abbrev registered : RegistrationState
registered = record {
  completed_steps = "r";
  tee_attest_instruction_id = 4 ∷ [];
  instruction_id = [];
}

first_run :
    do_step node "state.json" pre "rap" fresh [] (request_tee_attestation node tee) missing
    ≡ (ok (registered, 4 ∷ []), holds registered)
unfolding do_step request_tee_attestation check_tx contains
first_run = refl

asked : contains "r" "rap" ≡ true
unfolding contains
asked = refl

not_twice :
    do_step node "state.json" pre "rap" registered [] (request_tee_attestation node tee) missing
    ≡ (ok (registered, 4 ∷ []), missing)
not_twice =
    do_step-once node "state.json" pre "rap" fresh [] (request_tee_attestation node tee) missing
      asked (registered, 4 ∷ []) (holds registered) first_run [] (request_tee_attestation node tee)
      missing

abbrev info : SignedInfo
info = record {
  public_key = tee;
  info_hash = ok [];
  chain_id = 114;
  proxy_signature = 6 ∷ [];
  machine_data = [];
  data_signature = [];
}

abbrev keys : Keys
keys = record {
  parse_pub_key = λ b. ok b;
  address_of = λ b. b;
  payload_hash = λ c h. ok h;
  sig_to_pub = λ h s. ok s;
}

ids_known : tee_proxy_id keys info ≡ ok (tee, 6 ∷ [])
unfolding tee_proxy_id
ids_known = refl

first_of_run :
    first_step node "s" info "h" "f" tee "rap" [] (tee, 6 ∷ []) fresh (holds fresh)
    ≡ (ok (registered, 4 ∷ []), holds registered)
unfolding do_step pre_registered request_tee_attestation check_tx contains
first_of_run = refl

register_node-resumes_example :
    register_node node "s" info "h" "f" tee "rap" [] keys (holds registered)
    ≡ later_steps node "s" info "h" "f" tee "rap" [] tee (registered, 4 ∷ []) (holds registered)
register_node-resumes_example =
    register_node-resumes node "s" info "h" "f" tee "rap" [] keys ((λ st w. refl), (λ k w. refl))
      asked (tee, 6 ∷ []) ids_known (holds fresh) fresh refl (registered, 4 ∷ []) (holds registered)
      first_of_run (holds registered) refl

abbrev answered : ActionResult
answered = record { status = 1; result_data = 1 ∷ []; log = "" }

-- The node, with a proxy that answers as soon as the file is there.
abbrev slow_node : Node StateFile ℕ
slow_node = record node {
  get_result = λ u h w. (elim w [ missing ↦ ok (404, []) | _ ↦ ok (200, 1 ∷ []) ], w);
  sleep = λ k w. holds fresh;
  decode_action = λ b. ok answered;
}

below_one : (i : ℕ) → suc i < 1 → ⊥
below_one i h = omega (arith, h)

not_before : (i : ℕ) → i < 1 → answers_at slow_node "u" [] i missing ≡ false
not_before zero h = refl
not_before (suc i) h = elim (below_one i h) [ ]

answered_second : action_result slow_node "u" [] missing ≡ (ok answered, holds fresh)
answered_second = action_result_first slow_node "u" [] 1 missing (omega arith) not_before refl
