-- ===== src/Checks/Deploy/Tests.antt =====
-- A chain and a deployment that pass.
use mindorr.Prelude.{All, List, ◌≡◌, refl, ok, [], ◌∷◌, some, none, false, true, ◌⊎◌}
use mindorr.Checks.EnvFile.{
  check_extension_env_format, is_extension_id, parse_extension_env, is_address, Machine,
}
use mindorr.Checks.Deploy.{
  ℕ, check_deployer_key_source, address_has_code, is_zero, key_has_funds, code_checks, Address,
  zero_labels, String, register_deploy_checks, Client,
}
use mindorr.Report.{has_failures, Report}
use mindorr.Checks.Deploy.Passing.{register_deploy_checks-passing, IsFunded, HasCode}

abbrev silent : Machine
silent = record {
  getenv = λ k. "";
  read_file = λ p. none;
  is_missing = λ p. true;
  dial = λ a. false;
  http_status = λ u. none;
  quote = λ s. s;
}

abbrev chain : Client
chain = record {
  code_at = λ a. ok (96 ∷ 128 ∷ []);
  balance_at = λ a. ok 20000000000000000;
  chain_id = ok 114;
}

abbrev env_path : String
env_path = "e"

abbrev entries : List (String × Address)
entries = ("Manager", 1 ∷ []) ∷ ("Registry", 2 ∷ []) ∷ []

abbrev before_deploy : Report
before_deploy = record { results = [] }

passes :
    has_failures (
      register_deploy_checks
        (λ a. "0x")
        silent
        (some chain)
        (some (9 ∷ []))
        entries
        entries
        env_path
        before_deploy)
    ≡ false
unfolding register_deploy_checks has_failures zero_labels code_checks key_has_funds address_has_code
    check_deployer_key_source check_extension_env_format
passes = refl

register_deploy_checks-passing_example :
    (has_failures before_deploy ≡ false)
    × All (λ (entry : String × Address). is_zero entry.1 ≡ false) entries
    × All (λ (entry : String × Address). HasCode chain entry.1) entries
    × IsFunded chain (9 ∷ [])
    × ((id : ℕ) × (chain.chain_id ≡ ok id))
    × ((env_path ≡ "")
        ⊎ (silent.read_file env_path ≡ none)
        ⊎ ((is_address (parse_extension_env silent env_path).instruction_sender ≡ true)
            × (is_extension_id (parse_extension_env silent env_path).extension_id ≡ true)))
register_deploy_checks-passing_example =
    register_deploy_checks-passing (λ a. "0x") silent chain (9 ∷ []) entries entries env_path
      before_deploy passes
