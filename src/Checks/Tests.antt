-- ===== src/Checks/Tests.antt =====
-- Concrete files and machines.
use mindorr.Prelude.{◌||◌, [], refl, ◌&&◌, not, none, false, some, any, String, ◌≡◌}
use mindorr.Checks.EnvFile.{
  is_extension_id, check_extension_env_format, is_address, parse_extension_env, Machine,
}
use mindorr.Report.{has_failures, Report, is_fail, CheckResult}
use mindorr.Checks.EnvFile.Agreement.{check_extension_env_format-parse}
use mindorr.Checks.Environment.{register_services_checks}
use mindorr.Checks.Verdicts.{register_services_checks-verdict}
use mindorr.Text.{is_empty}

abbrev env_text : String
env_text =
    "# made by pre-build\nEXTENSION_ID=0x1\n INSTRUCTION_SENDER = 0xf2170a0EBD84Bdf18F1b973A67d95F590F7Cc0f4\r\n"

abbrev pub machine : Machine
machine = record {
  getenv = λ k. "";
  read_file = λ p. some env_text;
  is_missing = λ p. false;
  dial = λ a. false;
  http_status = λ u. none;
  quote = λ s. s;
}

parsed :
    (parse_extension_env machine "e").instruction_sender
    ≡ "0xf2170a0EBD84Bdf18F1b973A67d95F590F7Cc0f4"
unfolding parse_extension_env
parsed = refl

check_extension_env_format-parse_example :
    any (λ (res : CheckResult). is_fail res.status) (check_extension_env_format machine "e")
    ≡ not (
        is_address (parse_extension_env machine "e").instruction_sender
        && is_extension_id (parse_extension_env machine "e").extension_id)
check_extension_env_format-parse_example =
    check_extension_env_format-parse machine "e" env_text refl

abbrev no_report : Report
no_report = record { results = [] }

services_verdict : has_failures (register_services_checks machine "e" no_report) ≡ (
    has_failures no_report
    || (not (is_empty "e") && not (is_extension_id (parse_extension_env machine "e").extension_id)))
services_verdict = register_services_checks-verdict machine "e" no_report
