-- ===== src/VerifyDeploy/Tests.antt =====
-- A deployment that passes all checks, and a report that a filter cuts.
use mindorr.Checks.Readiness.{register_test_checks, register_tee_machine_checks}
use mindorr.Checks.Environment.{register_tee_version_checks, register_services_checks}
use mindorr.Checks.Registration.{register_registration_checks}
use mindorr.Checks.EnvFile.{check_extension_env_format}
use mindorr.Checks.Deploy.{
  register_deploy_checks, code_checks, zero_labels, check_deployer_key_source, key_has_funds,
}
use mindorr.Prelude.{String, ◌≡◌, refl, ok, [], ◌∷◌, none, some, true, false, ◌&&◌, ◌⊎◌, ◌↔◌, any}
use mindorr.Report.{is_fail, fail, Report, CheckResult}
use mindorr.VerifyDeploy.{allowed_ids, verify_deploy, Flags, Support, finish}
use mindorr.Checks.EnvFile.{is_address, is_extension_id, parse_extension_env, Machine}
use mindorr.Checks.Registration.{Library}
use mindorr.Checks.Deploy.{is_zero, has_label}
use mindorr.Text.{is_empty}
use mindorr.Checks.Deploy.Passing.{IsFunded, HasCode}
use mindorr.VerifyDeploy.Passing.{verify_deploy-passing, finish-filtered}
use mindorr.Checks.Registration.Passing.{IsRegistered}

abbrev failing : CheckResult
failing = record {
  step = "deploy";
  id = "D6";
  name = "chain ID";
  status = fail;
  message = "";
  fix = "";
}

abbrev cut : Report
cut = record { results = failing ∷ [] }

filtered_exit : ((finish "D5, R2" cut).exit_code ≡ 1) ↔ (
    any
      (λ (res : CheckResult). has_label res.id (allowed_ids "D5, R2") && is_fail res.status)
      cut.results
    ≡ true)
filtered_exit = finish-filtered "D5, R2" cut refl

hidden : (finish "D5, R2" cut).exit_code ≡ 0
unfolding finish
hidden = refl

abbrev env_text : String
env_text =
    "EXTENSION_ID=0x0000000000000000000000000000000000000000000000000000000000000002\nINSTRUCTION_SENDER=0xf2170a0EBD84Bdf18F1b973A67d95F590F7Cc0f4\n"

abbrev host : Machine
host = record {
  getenv = λ k. "";
  read_file = λ p. some env_text;
  is_missing = λ p. false;
  dial = λ a. false;
  http_status = λ u. none;
  quote = λ s. s;
}

abbrev library : Library
library = record { hex = λ a. "0x"; hex_to_address = λ s. 5 ∷ []; evm_type = 69 ∷ [] }

abbrev support : Support
support = record {
  chain_client = record {
    code_at = λ a. ok (96 ∷ []);
    balance_at = λ a. ok 20000000000000000;
    chain_id = ok 114;
  };
  deployer = 9 ∷ [];
  registry = record {
    next_public_extension_id = ok 3;
    tee_extension_instructions_sender = λ i. ok (5 ∷ []);
    is_key_type_supported = λ i t. ok true;
  };
  owner_allowlist = record { is_allowed_tee_machine_owner = λ i a. ok true };
  tee_manager = 1 ∷ [];
}

abbrev flags : Flags
flags = record { step = "all"; config_path = "config/extension.env"; checks = "" }

env_found :
    is_empty (parse_extension_env host "config/extension.env").extension_id
      && is_empty (parse_extension_env host "config/extension.env").instruction_sender
    ≡ false
unfolding parse_extension_env
env_found = refl

exits_with_0 : (verify_deploy host library flags (ok support)).exit_code ≡ 0
unfolding verify_deploy register_test_checks register_tee_machine_checks register_tee_version_checks
    register_services_checks register_registration_checks is_extension_id is_address
    register_deploy_checks code_checks zero_labels check_extension_env_format
    check_deployer_key_source key_has_funds
exits_with_0 = refl

verify_deploy-passing_example :
    (is_zero support.tee_manager ≡ false)
    × HasCode support.chain_client support.tee_manager
    × IsFunded support.chain_client support.deployer
    × (is_extension_id (parse_extension_env host "config/extension.env").extension_id ≡ true)
    × IsRegistered host library support.chain_client support.deployer support.registry
        support.owner_allowlist
        (parse_extension_env host "config/extension.env")
    × ((host.is_missing "config/extension.env" ≡ true)
        ⊎ (is_address (parse_extension_env host "config/extension.env").instruction_sender ≡ true))
verify_deploy-passing_example =
    verify_deploy-passing host library flags support refl refl refl env_found exits_with_0
