-- ===== src/Registration/Resume/Tests.antt =====
-- A run that is asked for all steps, and failed in the last.
use mindorr.Prelude.{ℕ, ◌≡◌, refl, ok, [], ◌∷◌, true}
use mindorr.Registration.{RegistrationState, StateFile, Node, Done, done, holds, missing, next}
use mindorr.Registration.Sample.{quiet, tee}
use mindorr.Registration.Requests.{request_tee_attestation, request_ftdc_availability_check}
use mindorr.Registration.Policy.{check_policy_consistency}
use mindorr.Registration.Revert.{check_tx}
use mindorr.Registration.RegisterNode.{
  SignedInfo, Keys, contains, do_step, pre_registered, checked, tee_proxy_id, register_node,
  produced, zero_hash,
}
use mindorr.Registration.Resume.Production.{GotThrough, register_node-resumes_production}

-- The machine is registered already; the world is the state file.
abbrev node : Node StateFile ℕ
node = record (quiet StateFile) {
  read_state = λ p w. w;
  write_state = λ p st w. (ok done, holds st);
  remove_state = λ p w. missing;
}

abbrev info : SignedInfo
info = record {
  public_key = tee;
  info_hash = ok [];
  chain_id = 114;
  proxy_signature = 6 ∷ [];
  machine_data = [];
  data_signature = [];
}

abbrev keys : Keys
keys = record {
  parse_pub_key = λ b. ok b;
  address_of = λ b. b;
  payload_hash = λ c h. ok h;
  sig_to_pub = λ h s. ok s;
}

abbrev registered : RegistrationState
registered = record {
  completed_steps = "r";
  tee_attest_instruction_id = 4 ∷ [];
  instruction_id = zero_hash;
}

abbrev attested : RegistrationState
attested = record registered { completed_steps = "rR" }

abbrev requested : RegistrationState
requested = record registered { completed_steps = "rRa"; instruction_id = 4 ∷ [] }

got : GotThrough node "s" info "h" "f" tee "rRap" [] keys (tee, 6 ∷ []) missing (holds requested)
unfolding do_step pre_registered checked request_tee_attestation request_ftdc_availability_check
    check_policy_consistency check_tx contains
got = record {
  st = record {
    completed_steps = "";
    tee_attest_instruction_id = zero_hash;
    instruction_id = zero_hash;
  };
  r1 = (registered, 4 ∷ []);
  r2 = (attested, 4 ∷ []);
  r3 = (requested, 4 ∷ []);
  w1 = holds registered;
  w2 = holds attested;
  loads = refl;
  registers = refl;
  attests = refl;
  checks = refl;
}

asked : (contains "r" "rRap" ≡ true) × (contains "R" "rRap" ≡ true) × (contains "a" "rRap" ≡ true)
unfolding contains
asked = (refl, refl, refl)

ids_known : tee_proxy_id keys info ≡ ok (tee, 6 ∷ [])
unfolding tee_proxy_id
ids_known = refl

register_node-resumes_production_example :
    register_node node "s" info "h" "f" tee "rRap" [] keys (holds requested)
    ≡ next
        (λ (d : Done) w. (ok done, missing))
        (produced node "s" "rRap" "f" got.r3.1 (holds requested))
register_node-resumes_production_example =
    register_node-resumes_production node "s" info "h" "f" tee "rRap" [] keys
      ((λ st w. refl), (λ k w. refl)) asked.0 asked.1 asked.2 (tee, 6 ∷ []) ids_known missing
      (holds requested) got (holds requested) refl
