-- ===== src/Report/Tests.antt =====
-- A report with two steps that alternate.
use mathlib.Core.List.{Perm}
use mindorr.Prelude.{refl, [], ◌∷◌, String, ◌≡◌}
use mindorr.Report.{
  warn, pieces, fail, CheckResult, status_color, pass, Status, json_result, summary, steps, Report,
}
use mindorr.Text.{byte_len}
use mindorr.Report.Groups.{pieces-Perm, grouped, shown, headings, Distinct}
use mindorr.Text.Decimal.{decimal}
use mindorr.Text.Trim.{trim_space}

abbrev result : String → String → Status → CheckResult
result step id status = record {
  step = step;
  id = id;
  name = id;
  status = status;
  message = " m ";
  fix = "";
}

abbrev sample : Report
sample = record {
  results =
      result "deploy" "D1" pass ∷ result "services" "S2" fail ∷ result "deploy" "D5" warn ∷ [];
}

steps_test : steps sample ≡ "deploy" ∷ "services" ∷ []
unfolding steps
steps_test = refl

summary_test : summary sample ≡ "1 passed, 1 warning, 1 failed, 0 skipped"
unfolding summary decimal
summary_test = refl

json_test :
    json_result (result "deploy" "D1" pass)
    ≡ ("step", "deploy")
      ∷ ("id", "D1")
      ∷ ("name", "D1")
      ∷ ("status", "PASS")
      ∷ ("message", "m")
      ∷ []
unfolding json_result trim_space
json_test = refl

escape_test : byte_len (status_color pass) ≡ 5
unfolding byte_len
escape_test = refl

pieces-Perm_example :
    Distinct (headings (pieces sample))
    × Perm (shown (pieces sample)) sample.results
    × (shown (pieces sample) ≡ grouped sample.results (headings (pieces sample)))
pieces-Perm_example = pieces-Perm sample
