-- ===== src/Report.antt =====
-- The report of the deployment checks: extension/tools/pkg/validate/report.go.
pub mod Counts
pub mod Groups
mod Tests
use mindorr.Prelude.{
  ℕ, ◌+◌, Bool, true, false, not, ◌&&◌, ◌||◌, String, List, [], ◌∷◌, ◌++◌, map, concat, ◌==◌,
  if◌then◌else◌, keep, ◌≡◌, refl,
}
use mindorr.Text.{is_empty}
use mindorr.Text.Trim.{trim_space}
use mindorr.Text.Decimal.{decimal}

-- `Status` is an integer in the code: `other` is every number that no constant names.
pub data Status : Type 0 where
  pass warn fail skip : Status
  other : ℕ → Status

-- `Status.String`.
unfoldable pub status_name : Status → String
status_name pass = "PASS"
status_name warn = "WARN"
status_name fail = "FAIL"
status_name skip = "SKIP"
status_name (other n) = "UNKNOWN"

pub record CheckResult : Type 0 where
  pub step : String
  pub id : String
  pub name : String
  pub status : Status
  pub message : String
  pub fix : String

pub record Report : Type 0 where
  pub results : List CheckResult

-- `Report.Add`.
abbrev pub add : Report → CheckResult → Report
add r result = record { results = r.results ++ (result ∷ []) }

abbrev pub is_fail : Status → Bool
is_fail fail = true
is_fail _ = false

abbrev pub is_warn : Status → Bool
is_warn warn = true
is_warn _ = false

has_fail : List CheckResult → Bool
has_fail [] = false
has_fail (res ∷ rest) = let later = has_fail rest in if is_fail res.status then true else later

-- `Report.HasFailures`: the loop returns at the first failure.
unfoldable pub has_failures : Report → Bool
unfolding has_fail
has_failures r = has_fail r.results

-- The four counters of `Report.Summary`.
pub record Tally : Type 0 where
  pub passed : ℕ
  pub warning : ℕ
  pub failed : ℕ
  pub skipped : ℕ

abbrev pub tally_one : Tally → Status → Tally
tally_one t pass = record t { passed = t.passed + 1 }
tally_one t warn = record t { warning = t.warning + 1 }
tally_one t fail = record t { failed = t.failed + 1 }
tally_one t skip = record t { skipped = t.skipped + 1 }
tally_one t (other n) = t

unfoldable pub tally_from : Tally → List CheckResult → Tally
tally_from t [] = t
tally_from t (res ∷ rest) = tally_from (tally_one t res.status) rest

unfoldable pub tally : Report → Tally
unfolding tally_from
tally r = tally_from (record { passed = 0; warning = 0; failed = 0; skipped = 0 }) r.results

unfoldable pub summary : Report → String
unfolding tally
summary r =
    let t = tally r in
    concat (
      decimal t.passed
      ∷ " passed, "
      ∷ decimal t.warning
      ∷ " warning, "
      ∷ decimal t.failed
      ∷ " failed, "
      ∷ decimal t.skipped
      ∷ " skipped"
      ∷ [])

abbrev color_reset : String
color_reset = "\u{1b}[0m"

abbrev color_cyan : String
color_cyan = "\u{1b}[36m"

-- `statusColor`.
abbrev pub status_color : Status → String
status_color pass = "\u{1b}[32m"
status_color warn = "\u{1b}[33m"
status_color fail = "\u{1b}[31m"
status_color skip = "\u{1b}[90m"
status_color (other n) = color_reset

-- `stepLabel[step]`, and the step itself where the map has none.
abbrev pub step_label : String → String
step_label step =
    if step == "deploy"
    then "Contract Deployment"
    else if step == "register"
    then "Extension Registration"
    else if step == "services"
    then "Service Startup"
    else if step == "tee-version"
    then "TEE Version Registration"
    else if step == "tee-machine"
    then "TEE Machine Registration"
    else if step == "test"
    then "Testing"
    else step

abbrev pub seen : String → List String → Bool
seen s [] = false
seen s (t ∷ ts) = s == t || seen s ts

-- The loop that collects the steps: those met so far, in order.
unfoldable pub steps_from : List String → List CheckResult → List String
steps_from met [] = met
steps_from met (res ∷ rest) =
    steps_from (if not (seen res.step met) then met ++ (res.step ∷ []) else met) rest

unfoldable pub steps : Report → List String
unfolding steps_from
steps r = steps_from [] r.results

-- The results of one step, in order.
abbrev pub in_step : Report → String → List CheckResult
in_step r step = keep (λ res. res.step == step) r.results

-- What is written for one result.
abbrev result_lines : CheckResult → String
result_lines res = concat (
    ("  " ∷ status_color res.status ∷ "[" ∷ status_name res.status ∷ "]" ∷ color_reset ∷ [])
    ++ (" " ∷ res.id ∷ "  " ∷ res.name ∷ "\n" ∷ [])
    ++ (if is_fail res.status || is_warn res.status
        then (if not (is_empty res.message) then "         " ∷ res.message ∷ "\n" ∷ [] else [])
          ++ (if not (is_empty res.fix) then "         Fix: " ∷ res.fix ∷ "\n" ∷ [] else [])
        else []))

-- The pieces of the printed report: its title, a step's heading, a result, the empty line behind a
-- step, and the summary.
pub data Piece : Type 0 where
  title blank total : Piece
  heading : String → Piece
  line : CheckResult → Piece

abbrev pub step_pieces : Report → List String → List Piece
step_pieces r [] = []
step_pieces r (step ∷ rest) =
    (heading step ∷ map line (in_step r step)) ++ (blank ∷ step_pieces r rest)

unfoldable pub pieces : Report → List Piece
unfolding steps
pieces r = title ∷ (step_pieces r (steps r) ++ (total ∷ []))

write_piece : Report → Piece → String
write_piece r title =
    concat
      ("\n" ∷ color_cyan ∷ "=== Deployment Verification Report ===" ∷ color_reset ∷ "\n\n" ∷ [])
write_piece r (heading step) = concat (step_label step ∷ ":\n" ∷ [])
write_piece r (line res) = result_lines res
write_piece r blank = "\n"
write_piece r total = concat (summary r ∷ "\n" ∷ [])

-- `Report.Fprint`, as the texts that it writes, one after the other.
unfoldable pub fprint : Report → List String
unfolding pieces write_piece summary status_name
fprint r = map (write_piece r) (pieces r)

-- `omitempty`: an empty text gives no field.
abbrev optional : String → String → List (String × String)
optional key value = if is_empty value then [] else (key, value) ∷ []

-- The fields of a `jsonResult` as they are encoded.
unfoldable pub json_result : CheckResult → List (String × String)
unfolding status_name
json_result res =
    (("step", res.step)
      ∷ ("id", res.id)
      ∷ ("name", res.name)
      ∷ ("status", status_name res.status)
      ∷ [])
    ++ (optional "message" (trim_space res.message) ++ optional "fix" (trim_space res.fix))

pub record JsonReport : Type 0 where
  pub results : List (List (String × String))
  pub summary : String

-- `Report.FprintJSON`, as the value that is encoded.
unfoldable pub json_report : Report → JsonReport
unfolding json_result
json_report r = record { results = map json_result r.results; summary = summary r }
