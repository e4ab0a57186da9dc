-- ===== src/Checks/Verdicts.antt =====
-- When the checks that look at the machine alone add a failure to the report.
use mindorr.Prelude.{
  refl, sym, ◌++◌, [], ◌∷◌, ◌∷◌, List, Bool, String, ◌≡◌, ◌||◌, ◌&&◌, not, false, true, any, arith,
  ap, ◌∙◌,
}
use mindorr.Report.{add, is_fail, has_failures, Report, CheckResult}
use mindorr.Checks.Probe.{url_check, add_all}
use mindorr.Checks.EnvFile.{is_address, parse_extension_env, is_extension_id, Machine}
use mindorr.Text.{eq_of_is_empty, is_empty}
use mindorr.Checks.Environment.{
  version_results, services_results, register_tee_version_checks, register_services_checks,
}
use mindorr.Report.Counts.{has_failures-add}
use mindorr.LiveServer.Address.{strip_0x}
use mindorr.Checks.Readiness.{
  test_results, machine_results, register_test_checks, register_tee_machine_checks,
}

abbrev pub fails : CheckResult → Bool
fails res = is_fail res.status

pub any-append : (xs ys : List CheckResult) → any fails (xs ++ ys) ≡ (any fails xs || any fails ys)
any-append [] ys = refl
any-append (x ∷ xs) ys = ground (arith, any-append xs ys)

pub neither : (a b : Bool) → (a || b) ≡ false → (a ≡ false) × (b ≡ false)
neither a b h = ground (arith, h)

pub none_of_append :
    (xs ys : List CheckResult)
    → any fails (xs ++ ys) ≡ false
    → (any fails xs ≡ false) × (any fails ys ≡ false)
none_of_append xs ys h = neither (any fails xs) (any fails ys) (sym (any-append xs ys) ∙ h)

has_failures-add_one :
    (r : Report) (res : CheckResult) → has_failures (add r res) ≡ (has_failures r || fails res)
has_failures-add_one r res = let h = has_failures-add r res in ground (arith, h)

-- A report to which several results are added fails if it failed or one of them fails.
pub has_failures-add_all :
    (r : Report) (results : List CheckResult)
    → has_failures (add_all r results) ≡ (has_failures r || any fails results)
unfolding add_all
has_failures-add_all r [] = ground arith
has_failures-add_all r (res ∷ results) =
    let h = has_failures-add_one r res in
    let ih = has_failures-add_all (add r res) results in ground (arith, h, ih)

url_check_passes :
    (m : Machine) (url : String) (unset up down : CheckResult)
    → fails unset ≡ false
    → fails up ≡ false
    → fails down ≡ false
    → fails (url_check m url unset up down) ≡ false
url_check_passes m url unset up down h h' h'' = ground (arith, h, h', h'')

verdict :
    (r : Report) (results : List CheckResult) (b : Bool)
    → any fails results ≡ b
    → has_failures (add_all r results) ≡ (has_failures r || b)
verdict r results b h = has_failures-add_all r results ∙ ap (λ x. has_failures r || x) h

is_extension_id-is_empty : (s : String) → is_empty s ≡ true → is_extension_id s ≡ false
unfolding is_extension_id strip_0x
is_extension_id-is_empty s h = ap is_extension_id (eq_of_is_empty s h)

is_address-is_empty : (s : String) → is_empty s ≡ true → is_address s ≡ false
unfolding is_address strip_0x
is_address-is_empty s h = ap is_address (eq_of_is_empty s h)

module _ (m : Machine) (path : String) (r : Report) where
  -- The services' checks add a failure exactly if a path is given and the file there does not give
  -- a well-formed `EXTENSION_ID`; ports, keys and an unreachable proxy never fail the report.
  pub register_services_checks-verdict : has_failures (register_services_checks m path r) ≡ (
      has_failures r
      || (not (is_empty path) && not (is_extension_id (parse_extension_env m path).extension_id)))
  unfolding register_services_checks
  register_services_checks-verdict =
      let id = (parse_extension_env m path).extension_id in
      let h = is_extension_id-is_empty id in
      verdict r (services_results m path) _ (ground (arith, h))

  -- The version's checks add a failure exactly if a path is given and the file there does not give
  -- a well-formed `EXTENSION_ID`, unless it gives none and is missing.
  pub register_tee_version_checks-verdict : has_failures (register_tee_version_checks m path r) ≡ (
      has_failures r
      || (not (is_empty path)
          && not (is_extension_id (parse_extension_env m path).extension_id)
          && not (is_empty (parse_extension_env m path).extension_id && m.is_missing path)))
  unfolding register_tee_version_checks
  register_tee_version_checks-verdict =
      let id = (parse_extension_env m path).extension_id in
      let h = is_extension_id-is_empty id in
      verdict r (version_results m path) _ (ground (arith, h))

  -- The machine's checks warn, but never fail the report.
  pub register_tee_machine_checks-verdict :
      has_failures (register_tee_machine_checks m path r) ≡ has_failures r
  unfolding register_tee_machine_checks
  register_tee_machine_checks-verdict =
      verdict r (machine_results m path) false (ground arith) ∙ ground arith

  -- The tests' checks add a failure exactly if the file is there and does not give a well-formed
  -- `INSTRUCTION_SENDER`.
  pub register_test_checks-verdict : has_failures (register_test_checks m path r) ≡ (
      has_failures r
      || (not (is_empty path)
          && not (m.is_missing path)
          && not (is_address (parse_extension_env m path).instruction_sender)))
  unfolding register_test_checks
  register_test_checks-verdict =
      let h = is_address-is_empty (parse_extension_env m path).instruction_sender in
      verdict r (test_results m path) _ (ground (arith, h))
