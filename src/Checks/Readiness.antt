-- ===== src/Checks/Readiness.antt =====
-- The checks of a machine that is to be registered, and of the tests: `RegisterTeeMachineChecks`,
-- `RegisterTestChecks` and `RegisterStubChecks` of extension/tools/pkg/validate/checks.go.
use mindorr.Prelude.{List, concat, [], ◌∷◌, if◌then◌else◌, String, ◌==◌, ◌&&◌, not}
use mindorr.Checks.EnvFile.{is_address, parse_extension_env, Machine}
use mindorr.Checks.Probe.{url_check, outcome, add_all}
use mindorr.Report.{fail, skip, warn, add, pass, Report, CheckResult}
use mindorr.Text.{is_empty}

-- T1.
abbrev machine_mode : Machine → CheckResult
machine_mode m =
    let simulated = m.getenv "SIMULATED_TEE" == "true" in
    let res = outcome "tee-machine" "T1" "SIMULATED_TEE mode" in
    if simulated && m.getenv "LOCAL_MODE" == "false"
    then res warn
        "SIMULATED_TEE=true on non-local deployment — machine will be registered with test attestation values. Set SIMULATED_TEE=false for real TEE hardware"
        "Set SIMULATED_TEE=false in .env when deploying to a real GCP TEE"
    else if simulated
    then res pass "simulated TEE mode (local)" ""
    else res pass "real attestation mode" ""

-- T5.
abbrev machine_proxy : Machine → CheckResult
machine_proxy m =
    let url = m.getenv "NORMAL_PROXY_URL" in
    let res = outcome "tee-machine" "T5" "NORMAL_PROXY_URL reachable" in
    url_check m url (res skip "NORMAL_PROXY_URL not set" "")
      (res pass (concat ("normal proxy reachable at " ∷ url ∷ [])) "")
      (res warn
        (concat
          ("normal proxy not reachable at " ∷ url ∷ " — required for FTDC availability check" ∷ []))
        "Ensure the normal/FTDC proxy is running and NORMAL_PROXY_URL is correct in .env")

-- T10.
abbrev machine_host : Machine → CheckResult
machine_host m =
    let url = m.getenv "EXT_PROXY_URL" in
    let res = outcome "tee-machine" "T10" "host URL reachable" in
    url_check m url (res skip "EXT_PROXY_URL not set" "")
      (res pass (concat ("host URL reachable at " ∷ url ∷ [])) "")
      (res warn
        (concat (
          "host URL not reachable at " ∷ url
          ∷ " — machine will be registered with unreachable host. Data providers can't relay instructions"
          ∷ []))
        "Ensure the host is accessible and EXT_PROXY_URL or -h flag points to the right URL")

-- The results of `RegisterTeeMachineChecks`, in order.
abbrev pub machine_results : Machine → String → List CheckResult
machine_results m path = machine_mode m ∷ machine_proxy m ∷ machine_host m ∷ []

-- `RegisterTeeMachineChecks`; the path is not read.
unfoldable pub register_tee_machine_checks : Machine → String → Report → Report
unfolding add_all
register_tee_machine_checks m path r = add_all r (machine_results m path)

-- E1.
abbrev test_sender : Machine → String → CheckResult
test_sender m path =
    let res = outcome "test" "E1" "INSTRUCTION_SENDER valid" in
    let sender = (parse_extension_env m path).instruction_sender in
    if is_empty path
    then res skip "no --config provided" ""
    else if m.is_missing path
    then res skip "extension.env not found — run pre-build.sh first" ""
    else if is_empty sender
    then res fail "INSTRUCTION_SENDER not set — run pre-build.sh"
        "Run scripts/pre-build.sh to deploy and register the extension"
    else if not (is_address sender)
    then res fail "INSTRUCTION_SENDER malformed"
        "Delete config/extension.env and re-run scripts/pre-build.sh"
    else res pass sender ""

-- E3.
abbrev test_proxy : Machine → CheckResult
test_proxy m =
    let res = outcome "test" "E3" "proxy reachable for test results" in
    url_check m (m.getenv "EXT_PROXY_URL") (res skip "EXT_PROXY_URL not set" "")
      (res pass "proxy reachable for test result polling" "")
      (res warn "proxy not reachable — test results cannot be polled"
        "Start the proxy or check EXT_PROXY_URL")

-- E6.
abbrev test_hashes : CheckResult
test_hashes =
    outcome "test" "E6" "OPType/OPCommand alignment info" pass
      "OPType/OPCommand hashes are validated at runtime — if a 501 error occurs, check the hash values in the error message"
      ""

-- The results of `RegisterTestChecks`, in order.
abbrev pub test_results : Machine → String → List CheckResult
test_results m path = test_sender m path ∷ test_proxy m ∷ test_hashes ∷ []

-- `RegisterTestChecks`.
unfoldable pub register_test_checks : Machine → String → Report → Report
unfolding add_all
register_test_checks m path r = add_all r (test_results m path)

-- `RegisterStubChecks`.
abbrev pub register_stub_checks : Report → String → String → String → Report
register_stub_checks r step id_range name =
    add r (outcome step id_range name skip "not yet implemented" "")
