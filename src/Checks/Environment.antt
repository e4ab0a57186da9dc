-- ===== src/Checks/Environment.antt =====
-- The checks that look at the machine alone: `RegisterServicesChecks`, `RegisterTeeVersionChecks`,
-- `RegisterTeeMachineChecks`, `RegisterTestChecks` and `RegisterStubChecks` of
-- extension/tools/pkg/validate/checks.go.
use mindorr.Prelude.{List, concat, [], ◌∷◌, ◌==◌, if◌then◌else◌, Bool, String, ◌||◌, ◌&&◌, not}
use mindorr.Checks.EnvFile.{is_extension_id, parse_extension_env, Machine}
use mindorr.Checks.Probe.{url_check, outcome, add_all}
use mindorr.Report.{fail, warn, skip, pass, Report, CheckResult}
use mindorr.Text.{is_empty}

abbrev rerun : String
rerun = "Delete config/extension.env and re-run scripts/pre-build.sh"

abbrev proxy_fix : String
proxy_fix = "Start the proxy or check EXT_PROXY_URL"

-- S2.
abbrev pub services_id : Machine → String → CheckResult
services_id m path =
    let res = outcome "services" "S2" "EXTENSION_ID is set and well-formed" in
    let id = (parse_extension_env m path).extension_id in
    if is_empty path
    then res skip "run pre-build.sh first" ""
    else if is_empty id
    then res fail "EXTENSION_ID is empty or not found in extension.env" rerun
    else if not (is_extension_id id)
    then res fail (concat ("EXTENSION_ID has invalid format: " ∷ m.quote id ∷ [])) rerun
    else res pass id ""

-- S5: the connection is dialled to port 7702 where the variable is empty.
abbrev services_port : Machine → CheckResult
services_port m =
    let set = m.getenv "EXTENSION_PORT" in
    let port = if is_empty set then "7702" else set in
    let res = outcome "services" "S5" "extension port not in use" in
    if m.dial (concat ("localhost:" ∷ port ∷ []))
    then res warn
        (concat ("port " ∷ port ∷ " is already in use — extension server will fail to bind" ∷ []))
        "Stop the process using that port or change EXTENSION_PORT"
    else res pass "port available" ""

-- S7.
abbrev services_ports : Machine → CheckResult
services_ports m =
    let ext_port = m.getenv "EXTENSION_PORT" in
    let sign_port = m.getenv "SIGN_PORT" in
    let res = outcome "services" "S7" "port configuration" in
    if not (is_empty ext_port) || not (is_empty sign_port)
    then res pass (concat ("EXTENSION_PORT=" ∷ ext_port ∷ ", SIGN_PORT=" ∷ sign_port ∷ [])) ""
    else res pass "using defaults (standalone: 8080/9090, Docker: 7702/7701)" ""

-- S9.
abbrev services_proxy : Machine → CheckResult
services_proxy m =
    let url = m.getenv "EXT_PROXY_URL" in
    let res = outcome "services" "S9" "EXT_PROXY_URL reachable" in
    url_check m url (res skip "EXT_PROXY_URL not set" "")
      (res pass (concat ("proxy reachable at " ∷ url ∷ [])) "")
      (res warn (concat ("proxy not reachable at " ∷ url ∷ " — is the proxy running?" ∷ []))
        proxy_fix)

abbrev pub is_local : String → Bool
is_local mode = mode == "true" || is_empty mode

-- S10.
abbrev services_key : Machine → CheckResult
services_key m =
    let mode = m.getenv "LOCAL_MODE" in
    let res = outcome "services" "S10" "PROXY_PRIVATE_KEY set on non-local" in
    if is_local mode
    then res pass "local mode, dev key OK" ""
    else if mode == "false" && is_empty (m.getenv "PROXY_PRIVATE_KEY")
    then res warn "PROXY_PRIVATE_KEY not set in non-local mode — proxy will use default key"
        "Set PROXY_PRIVATE_KEY in .env for non-local deployments"
    else res pass "PROXY_PRIVATE_KEY is configured" ""

-- The results of `RegisterServicesChecks`, in order.
abbrev pub services_results : Machine → String → List CheckResult
services_results m path =
    services_id m path ∷ services_port m ∷ services_ports m ∷ services_proxy m ∷ services_key m ∷ []

-- `RegisterServicesChecks`.
unfoldable pub register_services_checks : Machine → String → Report → Report
unfolding add_all
register_services_checks m path r = add_all r (services_results m path)

-- V2.
abbrev version_owner : Machine → CheckResult
version_owner m =
    let res = outcome "tee-version" "V2" "extension owner key" in
    if not (is_empty (m.getenv "EXTENSION_OWNER_KEY"))
    then res pass "EXTENSION_OWNER_KEY is configured" ""
    else if not (is_empty (m.getenv "DEPLOYMENT_PRIVATE_KEY"))
    then res pass "using DEPLOYMENT_PRIVATE_KEY (EXTENSION_OWNER_KEY not set)" ""
    else if not (is_local (m.getenv "LOCAL_MODE"))
    then res warn
        "neither EXTENSION_OWNER_KEY nor DEPLOYMENT_PRIVATE_KEY set — AddTeeVersion will use dev key which isn't the extension owner on Coston2"
        "Set EXTENSION_OWNER_KEY or DEPLOYMENT_PRIVATE_KEY in .env"
    else res pass "using dev key (local mode)" ""

-- V4; the error of `parseExtensionEnv` is nil, so that its branch is not here.
abbrev version_id : Machine → String → CheckResult
version_id m path =
    let res = outcome "tee-version" "V4" "EXTENSION_ID valid" in
    let id = (parse_extension_env m path).extension_id in
    if is_empty path
    then res skip "no --config provided" ""
    else if is_empty id
    then (if m.is_missing path
        then res skip "extension.env not found — run pre-build.sh first" ""
        else res fail "EXTENSION_ID not set" rerun)
    else if not (is_extension_id id)
    then res fail "EXTENSION_ID malformed" rerun
    else res pass id ""

-- V6.
abbrev version_proxy : Machine → CheckResult
version_proxy m =
    let url = m.getenv "EXT_PROXY_URL" in
    let res = outcome "tee-version" "V6" "proxy reachable" in
    url_check m url (res skip "EXT_PROXY_URL not set — allow-tee-version uses -p flag" "")
      (res pass (concat ("proxy reachable at " ∷ url ∷ [])) "")
      (res warn (concat ("proxy not reachable at " ∷ url ∷ " — start services first" ∷ []))
        proxy_fix)

-- The results of `RegisterTeeVersionChecks`, in order.
abbrev pub version_results : Machine → String → List CheckResult
version_results m path = version_owner m ∷ version_id m path ∷ version_proxy m ∷ []

-- `RegisterTeeVersionChecks`.
unfoldable pub register_tee_version_checks : Machine → String → Report → Report
unfolding add_all
register_tee_version_checks m path r = add_all r (version_results m path)
