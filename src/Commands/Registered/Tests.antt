-- ===== src/Commands/Registered/Tests.antt =====
-- An extension that is registered on contracts that remember, and its checks.
use mindorr.Prelude.{◌≡◌, refl, arith, false, none, some, ok, [], ◌∷◌, String, Result}
use mindorr.Report.{Report, has_failures}
use mindorr.Checks.Deploy.{Client}
use mindorr.Checks.EnvFile.{is_extension_id, Machine, parse_extension_env}
use mindorr.Checks.Registration.{extension_number, Library, register_registration_checks}
use mindorr.Registration.Revert.{check_tx}
use mindorr.Registration.Sample.{tee}
use mindorr.Registration.Setup.Sample.{chain, contracts, keep_promises, nothing, everything}
use mindorr.Commands.{true, Started}
use mindorr.Commands.Printed.{extension_id_text-extension_number, extension_id_text}
use mindorr.Commands.Registered.{TellsSmall, register_extension_printed}
use mindorr.Commands.Registered.Checked.{
  registry_at, allowlist_at, register_extension_printed-passes,
}

abbrev env_text : String
env_text =
    "EXTENSION_ID=0x0000000000000000000000000000000000000000000000000000000000000004\nINSTRUCTION_SENDER=0xf2170a0EBD84Bdf18F1b973A67d95F590F7Cc0f4\n"

abbrev machine : Machine
machine = record {
  getenv = λ k. "";
  read_file = λ p. some env_text;
  is_missing = λ p. false;
  dial = λ a. false;
  http_status = λ u. none;
  quote = λ s. s;
}

abbrev library : Library
library = record { hex = λ a. "0x08"; hex_to_address = λ s. 8 ∷ []; evm_type = 69 ∷ [] }

abbrev client : Client
client = record { code_at = λ a. ok (96 ∷ []); balance_at = λ a. ok 1; chain_id = ok 114 }

abbrev started : Result Started
started = ok (record { client = client; deployer = 2 ∷ []; manager = 7 ∷ [] })

small : TellsSmall chain started contracts (λ a. "") (λ s. 8 ∷ []) tee
small log id h = ground (arith, h)

abbrev printed_id : String
printed_id = "0x0000000000000000000000000000000000000000000000000000000000000004"

printed :
    register_extension_printed chain started contracts (λ a. "") (λ s. 8 ∷ []) tee "0x08" nothing
    ≡ (ok printed_id, everything)
unfolding register_extension_printed check_tx extension_id_text
printed = refl

read_back : (parse_extension_env machine "e").extension_id ≡ printed_id
unfolding parse_extension_env
read_back = refl

abbrev no_report : Report
no_report = record { results = [] }

register_extension_printed-passes_example :
    has_failures (
      register_registration_checks machine library
        (some client)
        (some chain.sender)
        (some (
          registry_at chain started contracts
            (λ a. "")
            (λ s. 8 ∷ [])
            tee
            5
            (λ i. ok (8 ∷ []))
            everything))
        (some (allowlist_at chain started contracts (λ a. "") (λ s. 8 ∷ []) tee everything))
        "e"
        no_report)
    ≡ has_failures no_report
register_extension_printed-passes_example =
    register_extension_printed-passes chain started contracts (λ a. "") (λ s. 8 ∷ []) tee machine
      library client 5 (λ i. ok (8 ∷ [])) refl keep_promises small "0x08" printed_id "e" nothing
      everything no_report printed read_back refl

extension_id_text-extension_number_example :
    (is_extension_id (extension_id_text 4660) ≡ true)
    × (extension_number (extension_id_text 4660) ≡ 4660)
extension_id_text-extension_number_example = extension_id_text-extension_number 4660 (omega arith)
