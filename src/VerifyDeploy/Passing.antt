-- ===== src/VerifyDeploy/Passing.antt =====
-- What the exit code of the command says.
use mindorr.Prelude.{
  ◌↔◌, keep, List, String, Bool, ◌≡◌, refl, ok, [], ◌∷◌, true, false, ◌&&◌, not, arith, sym, ap,
  ◌∙◌, ◌⊎◌, any,
}
use mindorr.Report.{is_fail, Report, CheckResult, has_failures}
use mindorr.VerifyDeploy.{
  entries_of, register_step, empty_report, deploy_step, all_steps, allowed_ids, verify_deploy,
  Support, Flags, filtered, finish,
}
use mindorr.Checks.EnvFile.{is_address, is_extension_id, parse_extension_env, Env, Machine}
use mindorr.Checks.Registration.{Library}
use mindorr.Text.{is_empty}
use mindorr.Checks.Deploy.{is_zero, has_label}
use mindorr.Checks.Deploy.Passing.{register_deploy_checks-passing, IsFunded, HasCode}
use mindorr.Checks.Registration.Passing.{register_registration_checks-passing, IsRegistered}
use mindorr.Checks.Environment.{register_tee_version_checks, register_services_checks}
use mindorr.Checks.Readiness.{register_tee_machine_checks}
use mindorr.Checks.Verdicts.{
  register_services_checks-verdict, register_tee_version_checks-verdict,
  register_tee_machine_checks-verdict, register_test_checks-verdict, neither,
}

has_fail-keep :
    (p : CheckResult → Bool) (l : List CheckResult)
    → has_failures (record { results = keep p l }) ≡ any (λ res. p res && is_fail res.status) l
unfolding has_failures
has_fail-keep p [] = refl
has_fail-keep p (res ∷ l) = ground (arith, has_fail-keep p l)

-- With a filter the command exits with 1 exactly if a check fails whose id the filter names: a failure
-- of another id is hidden, and does not count.
pub finish-filtered :
    (checks : String) (r : Report)
    → is_empty checks ≡ false
    → ((finish checks r).exit_code ≡ 1)
      ↔ (any (λ res. has_label res.id (allowed_ids checks) && is_fail res.status) r.results ≡ true)
unfolding finish filtered
finish-filtered checks r h =
    let k = has_fail-keep (λ res. has_label res.id (allowed_ids checks)) r.results in
    ground (arith, h, k)

finish_0 :
    (checks : String) (r : Report)
    → is_empty checks ≡ true
    → (finish checks r).exit_code ≡ 0
    → has_failures r ≡ false
unfolding finish filtered
finish_0 checks r h e = ground (arith, h, e)

module _ (m : Machine) (lib : Library) (flags : Flags) (s : Support) where
  abbrev file : Env
  file = parse_extension_env m flags.config_path

  sender_or_missing :
      is_empty flags.config_path ≡ false
      → not (is_empty flags.config_path)
          && not (m.is_missing flags.config_path)
          && not (is_address file.instruction_sender)
        ≡ false
      → (m.is_missing flags.config_path ≡ true) ⊎ (is_address file.instruction_sender ≡ true)
  sender_or_missing given h = ground (arith, given, h)

  verify_deploy-all :
      flags.step ≡ "all"
      → verify_deploy m lib flags (ok s) ≡ finish flags.checks (all_steps m lib flags s)
  unfolding verify_deploy
  verify_deploy-all step = rw (verify_deploy, step) refl

  -- If the command with the step "all" and no filter exits with 0, and the file at its path gives an
  -- id or a sender, then the manager's address is not zero and has code, the deployer has the minimum
  -- balance, the id in the file is well formed and registered as the file says, and, if the file is
  -- not missing, so is the sender an address.
  pub verify_deploy-passing :
      flags.step ≡ "all"
      → is_empty flags.checks ≡ true
      → is_empty flags.config_path ≡ false
      → is_empty file.extension_id && is_empty file.instruction_sender ≡ false
      → (verify_deploy m lib flags (ok s)).exit_code ≡ 0
      → (is_zero s.tee_manager ≡ false)
        × HasCode s.chain_client s.tee_manager
        × IsFunded s.chain_client s.deployer
        × (is_extension_id file.extension_id ≡ true)
        × IsRegistered m lib s.chain_client s.deployer s.registry s.owner_allowlist file
        × ((m.is_missing flags.config_path ≡ true) ⊎ (is_address file.instruction_sender ≡ true))
  unfolding verify_deploy
  verify_deploy-passing step shown given found exits =
      let path = flags.config_path in
      let fine =
        finish_0 flags.checks (all_steps m lib flags s) shown
          (sym (ap (λ o. o.exit_code) (verify_deploy-all step)) ∙ exits) in
      let deployed = deploy_step m lib flags s empty_report in
      let registered = register_step m lib flags s deployed in
      let served = register_services_checks m path registered in
      let versioned = register_tee_version_checks m path served in
      let machined = register_tee_machine_checks m path versioned in
      let (fine, tested) =
        neither (has_failures machined) _
          (sym (register_test_checks-verdict m path machined) ∙ fine) in
      let fine = sym (register_tee_machine_checks-verdict m path versioned) ∙ fine in
      let (fine, _) =
        neither (has_failures served) _
          (sym (register_tee_version_checks-verdict m path served) ∙ fine) in
      let (fine, _) =
        neither (has_failures registered) _
          (sym (register_services_checks-verdict m path registered) ∙ fine) in
      let (fine, id, _, chain) =
        register_registration_checks-passing m lib s.chain_client s.deployer s.registry
          s.owner_allowlist path deployed given found fine in
      let (_, (manager, _), (coded, _), funded, _, _) =
        register_deploy_checks-passing lib.hex m s.chain_client s.deployer
          (entries_of m lib flags s) (entries_of m lib flags s) path empty_report fine in
      (manager, coded, funded, id, chain, sender_or_missing given tested)
