-- ===== src/Checks/Probe.antt =====
-- What the checks of extension/tools/pkg/validate/checks.go share: the building of a result, the
-- adding of several, and the question whether a URL answers.
use mindorr.Prelude.{
  none, some, eqb, [], some, if◌then◌else◌, concat, false, ◌∷◌, Bool, ℕ, List, Option, String,
}
use mindorr.Report.{add, CheckResult, Status, Report}
use mindorr.Checks.EnvFile.{Machine}
use mindorr.Text.{is_empty}

-- A result of one check, with its message and its fix.
abbrev pub outcome : String → String → String → Status → String → String → CheckResult
outcome step id name status message fix = record {
  step = step;
  id = id;
  name = name;
  status = status;
  message = message;
  fix = fix;
}

-- Several `r.Add` in a row.
unfoldable pub add_all : Report → List CheckResult → Report
add_all r [] = r
add_all r (res ∷ results) = add_all (add r res) results

abbrev answers_ok : Option ℕ → Bool
answers_ok none = false
answers_ok (some status) = eqb status 200

-- `httpClient.Get(url + "/info")` succeeds with status 200.
unfoldable pub reachable : Machine → String → Bool
reachable m url = answers_ok (m.http_status (concat (url ∷ "/info" ∷ [])))

-- The check of a URL that may be unset: the three results in the order unset, reachable, not.
abbrev pub url_check : Machine → String → CheckResult → CheckResult → CheckResult → CheckResult
url_check m url unset up down = if is_empty url then unset else if reachable m url then up else down
