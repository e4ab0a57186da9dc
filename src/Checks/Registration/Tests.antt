-- ===== src/Checks/Registration/Tests.antt =====
-- Contracts that hold what the file says.
use mindorr.Prelude.{◌&&◌, ◌≡◌, refl, ok, [], ◌∷◌, some, none, false, true, ◌↔◌, ◌<◌, arith}
use mindorr.Checks.EnvFile.{is_address, is_extension_id, parse_extension_env, Machine}
use mindorr.Checks.Deploy.{Client}
use mindorr.Checks.Registration.{
  int64_rounds, ℕ, matching_ids, unique_check, register_registration_checks, Library,
  OwnerAllowlist, ExtensionManager,
}
use mindorr.Report.{warn, has_failures, Report}
use mindorr.Text.{is_empty}
use mindorr.Checks.Registration.Passing.{register_registration_checks-passing, IsRegistered}
use mindorr.Checks.Registration.Senders.{unique_check-warns, Sends}

abbrev registered : Machine
registered = record {
  getenv = λ k. "";
  read_file =
      λ p. some "EXTENSION_ID=0x0000000000000000000000000000000000000000000000000000000000000002\n";
  is_missing = λ p. false;
  dial = λ a. false;
  http_status = λ u. none;
  quote = λ s. s;
}

abbrev chain : Client
chain = record { code_at = λ a. ok []; balance_at = λ a. ok 0; chain_id = ok 114 }

abbrev manager : ExtensionManager
manager = record {
  next_public_extension_id = ok 3;
  tee_extension_instructions_sender = λ i. ok (5 ∷ []);
  is_key_type_supported = λ i t. ok true;
}

abbrev owners : OwnerAllowlist
owners = record { is_allowed_tee_machine_owner = λ i a. ok true }

abbrev library : Library
library = record { hex = λ a. "0x"; hex_to_address = λ s. 5 ∷ []; evm_type = 69 ∷ [] }

abbrev before : Report
before = record { results = [] }

passes :
    has_failures (
      register_registration_checks registered library
        (some chain)
        (some (9 ∷ []))
        (some manager)
        (some owners)
        "e"
        before)
    ≡ false
unfolding register_registration_checks has_failures is_extension_id is_address
passes = refl

found :
    is_empty (parse_extension_env registered "e").extension_id
      && is_empty (parse_extension_env registered "e").instruction_sender
    ≡ false
unfolding parse_extension_env
found = refl

register_registration_checks-passing_example :
    (has_failures before ≡ false)
    × (is_extension_id (parse_extension_env registered "e").extension_id ≡ true)
    × ((n : ℕ) × (manager.next_public_extension_id ≡ ok n))
    × IsRegistered registered library chain
        (9 ∷ [])
        manager
        owners
        (parse_extension_env registered "e")
register_registration_checks-passing_example =
    register_registration_checks-passing registered library chain (9 ∷ []) manager owners "e" before
      refl found passes

unique_check-warns_example :
    ((unique_check "0x5" (matching_ids manager (5 ∷ []) 0 (int64_rounds 3))).status ≡ warn)
    ↔ ((j l : ℕ) × (j < l) × (l < 3) × Sends manager (5 ∷ []) j × Sends manager (5 ∷ []) l)
unique_check-warns_example = unique_check-warns manager (5 ∷ []) "0x5" 3 (omega arith)
