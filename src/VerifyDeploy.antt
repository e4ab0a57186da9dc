-- ===== src/VerifyDeploy.antt =====
-- The command that checks a deployment: `main` of extension/tools/cmd/verify-deploy/main.go.
pub mod Passing
mod Tests
use mindorr.Prelude.{
  code, map, Result, keep, eqb, if◌then◌else◌, List, ℕ, Char, Option, String, ◌≡◌, refl, ok, err,
  [], ◌∷◌, none, some, true, false, ◌||◌, ◌&&◌, not, ◌==◌,
}
use mindorr.Checks.Deploy.{has_label, register_deploy_checks, Address, Client}
use mindorr.Text.Trim.{trim_space}
use mindorr.Report.{Report, has_failures}
use mindorr.Checks.EnvFile.{Machine}
use mindorr.Checks.Registration.{
  OwnerAllowlist, register_registration_checks, ExtensionManager, Library,
}
use mindorr.Text.{is_empty}
use mindorr.Checks.Readiness.{register_tee_machine_checks, register_test_checks}
use mindorr.Checks.Environment.{register_tee_version_checks, register_services_checks}

-- The flags that decide what is checked; `checks` is the list of ids in one text.
pub record Flags : Type 0 where
  pub step : String
  pub config_path : String
  pub checks : String

-- What `support.DefaultSupport` gives to the checks.
pub record Support : Type 0 where
  pub chain_client : Client
  pub deployer : Address
  pub registry : ExtensionManager
  pub owner_allowlist : OwnerAllowlist
  pub tee_manager : Address

-- The end of the command: the report that is printed, if there is one, and the exit code.
pub record Outcome : Type 0 where
  pub printed : Option Report
  pub exit_code : ℕ

-- `strings.Split(s, ",")`, from the part that is being read, which is kept backwards.
abbrev put_first : Char → List String → List String
put_first c [] = String.◌∷◌ c String.[] ∷ []
put_first c (part ∷ parts) = String.◌∷◌ c part ∷ parts

unfoldable pub split_commas : String → List String
split_commas String.[] = "" ∷ []
split_commas (String.◌∷◌ c s) =
    let parts = split_commas s in if eqb (code c) b',' then "" ∷ parts else put_first c parts

-- The ids that the filter names.
unfoldable pub allowed_ids : String → List String
unfolding split_commas trim_space
allowed_ids checks = keep (λ t. not (is_empty t)) (map trim_space (split_commas checks))

-- The filter, where there is one.
unfoldable pub filtered : String → Report → Report
unfolding allowed_ids
filtered checks r =
    if is_empty checks
    then r
    else record { results = keep (λ res. has_label res.id (allowed_ids checks)) r.results }

-- The end of `main`, on the report of the checks.
unfoldable pub finish : String → Report → Outcome
unfolding filtered has_failures
finish checks r =
    let report = filtered checks r in
    record { printed = some report; exit_code = if has_failures report then 1 else 0 }

abbrev stopped : Outcome
stopped = record { printed = none; exit_code = 1 }

abbrev pub empty_report : Report
empty_report = record { results = [] }

module _ (m : Machine) (lib : Library) (flags : Flags) where
  abbrev entries_of : Support → List (String × Address)
  entries_of s = ("FlareTeeManager", s.tee_manager) ∷ []

  abbrev pub deploy_step : Support → Report → Report
  deploy_step s r =
      register_deploy_checks lib.hex m (some s.chain_client) (some s.deployer) (entries_of s)
        (entries_of s) flags.config_path r

  abbrev pub register_step : Support → Report → Report
  register_step s r =
      register_registration_checks m lib (some s.chain_client) (some s.deployer) (some s.registry)
        (some s.owner_allowlist) flags.config_path r

  -- The checks of "all", in their order.
  abbrev pub all_steps : Support → Report
  all_steps s = register_test_checks m flags.config_path (
      register_tee_machine_checks m flags.config_path (
        register_tee_version_checks m flags.config_path (
          register_services_checks m flags.config_path
            (register_step s (deploy_step s empty_report)))))

  abbrev with_support : (Support → Report) → Result Support → Outcome
  with_support checks (err e) = stopped
  with_support checks (ok s) = finish flags.checks (checks s)

  -- `main`, on what `support.DefaultSupport` gives.
  unfoldable pub verify_deploy : Result Support → Outcome
  unfolding finish
  verify_deploy support =
      if flags.step == "deploy"
      then with_support (λ s. deploy_step s empty_report) support
      else if flags.step == "register"
      then with_support (λ s. register_step s empty_report) support
      else if flags.step == "all"
      then with_support all_steps support
      else if flags.step == "services"
      then finish flags.checks (register_services_checks m flags.config_path empty_report)
      else if flags.step == "tee-version"
      then finish flags.checks (register_tee_version_checks m flags.config_path empty_report)
      else if flags.step == "tee-machine"
      then finish flags.checks (register_tee_machine_checks m flags.config_path empty_report)
      else if flags.step == "test"
      then finish flags.checks (register_test_checks m flags.config_path empty_report)
      else stopped
