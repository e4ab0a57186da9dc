-- ===== src/Commands/Registered/Checked.antt =====
-- From the registration of an extension to its checks: what register-extension prints goes into
-- `extension.env`, which the registration checks of verify-deploy read.
use mindorr.Prelude.{
  if◌then◌else◌, not, concat, ℕ, Bool, true, false, ◌&&◌, ◌||◌, any, some, String, Result, ok, [],
  ◌∷◌, ◌++◌, ◌≡◌, refl, ◌∙◌, ap, arith, sym, subst, eqb, ltb, length, List, if_elim,
}
use mindorr.Text.{is_empty}
use mindorr.Wire.{copy_into_32, same_hash_iff}
use mindorr.Report.{fail, skip, CheckResult, Report, has_failures}
use mindorr.Checks.Deploy.{Address, Client}
use mindorr.Checks.EnvFile.{Machine, Env, parse_extension_env, is_address, is_extension_id}
use mindorr.Checks.Registration.{
  id_res, ExtensionManager, OwnerAllowlist, Library, register_registration_checks, env_results,
  chain_results, sender_checks, sender_check, counter_check, unique_check, unique_checks,
  extension_number,
}
use mindorr.Checks.Verdicts.{any-append, has_failures-add_all, fails}
use mindorr.Registration.{Node}
use mindorr.Registration.Ensures.{of_Ensures}
use mindorr.Registration.Setup.{Registrar}
use mindorr.Registration.Setup.Granted.{Contracts, Owns, Supports}
use mindorr.Commands.{Started}
use mindorr.Commands.Printed.{extension_id_text, extension_id_text-extension_number}
use mindorr.Commands.Registered.{
  IsPrinted, TellsSmall, register_extension_printed-IsPrinted, register_extension_printed,
}

none-append :
    (xs ys : List CheckResult)
    → any fails xs ≡ false
    → any fails ys ≡ false
    → any fails (xs ++ ys) ≡ false
none-append xs ys h k = any-append xs ys ∙ ground (arith, h, k)

fails-sender_check :
    (lib : Library) (sender : String)
    → fails (sender_check lib sender (ok (lib.hex_to_address sender))) ≡ false
fails-sender_check lib sender =
    let same = same_hash_iff (lib.hex_to_address sender) (lib.hex_to_address sender) in
    ground (arith, same)

fails-unique_check : (sender : String) (ids : List ℕ) → fails (unique_check sender ids) ≡ false
fails-unique_check sender ids =
    if_elim (λ x. fails x ≡ false) (ltb 1 (length ids)) (λ _. refl) (λ _. refl)

fails-counter_check : (next : ℕ) → fails (counter_check (ok next)) ≡ false
fails-counter_check next = if_elim (λ x. fails x ≡ false) (eqb next 0) (λ _. refl) (λ _. refl)

module _ (lib : Library) (client : Client) (registry : ExtensionManager) (sender : String) where
  any-sender_checks :
      (id : ℕ)
      → registry.tee_extension_instructions_sender id ≡ ok (lib.hex_to_address sender)
      → any fails (sender_checks lib (some client) (some registry) sender id) ≡ false
  any-sender_checks id e =
      if_elim (λ x. any fails x ≡ false) (is_address sender)
        (λ _. rw e (ap (λ b. b || false) (fails-sender_check lib sender))) (λ _. refl)

  any-unique_checks : (next : ℕ) → any fails (unique_checks lib registry sender (ok next)) ≡ false
  any-unique_checks next =
      if_elim (λ x. any fails x ≡ false) (eqb next 0) (λ _. refl)
        (λ _.
          if_elim (λ x. any fails x ≡ false) (is_address sender)
            (λ _. ap (λ b. b || false) (fails-unique_check sender _)) (λ _. refl))

module _ {W Log : Type 0} (n : Node W Log) (support : Result Started) (c : Registrar W Log)
    (hex : Address → String) (hex_to_address : String → Address) (zero_address : Address) where
  -- The contracts as the checks see them in a world: both ask the same calls.
  abbrev pub registry_at : (next : ℕ) → (ℕ → Result Address) → W → ExtensionManager
  registry_at next senders w = record {
    next_public_extension_id = ok next;
    tee_extension_instructions_sender = senders;
    is_key_type_supported = λ id key_type. c.is_key_type_supported id key_type w;
  }

  abbrev pub allowlist_at : W → OwnerAllowlist
  allowlist_at w = record {
    is_allowed_tee_machine_owner = λ id owner. c.is_tee_machine_owner id owner w;
  }

  module _ (m : Machine) (lib : Library) (client : Client) (next : ℕ) (senders : ℕ → Result Address)
      (same_type : copy_into_32 lib.evm_type ≡ c.evm_type) where
    -- What the checks find, where the file's id is that of an extension that is set up.
    chain_results-none :
        (w : W) (env : Env)
        → senders (extension_number env.extension_id)
          ≡ ok (lib.hex_to_address env.instruction_sender)
        → Owns n c (extension_number env.extension_id) w
        → Supports n c (extension_number env.extension_id) w
        → any fails (
            chain_results m lib
              (some client)
              (some n.sender)
              (some (registry_at next senders w))
              (some (allowlist_at w))
              env)
          ≡ false
    chain_results-none w env sends owns supports =
        let id = extension_number env.extension_id in
        let registry = registry_at next senders w in
        none-append (sender_checks lib (some client) (some registry) env.instruction_sender id) _
          (any-sender_checks lib client registry env.instruction_sender id sends)
          (rw (owns, same_type, supports)
            (any-unique_checks lib client registry env.instruction_sender next))

    env_results-none :
        (w : W) (env : Env)
        → is_extension_id env.extension_id ≡ true
        → senders (extension_number env.extension_id)
          ≡ ok (lib.hex_to_address env.instruction_sender)
        → Owns n c (extension_number env.extension_id) w
        → Supports n c (extension_number env.extension_id) w
        → any fails (
            env_results m lib
              (some client)
              (some n.sender)
              (some (registry_at next senders w))
              (some (allowlist_at w))
              env)
          ≡ false
    env_results-none w env well_formed sends owns supports =
        if_elim (λ x. any fails x ≡ false)
          (is_empty env.extension_id && is_empty env.instruction_sender) (λ _. refl)
          (λ _.
            none-append (counter_check (ok next) ∷ [])
              (if not (is_extension_id env.extension_id)
                then id_res "R2" "EXTENSION_ID format" fail
                    (concat ("malformed EXTENSION_ID: " ∷ m.quote env.extension_id ∷ []))
                    "Delete config/extension.env and re-run scripts/pre-build.sh"
                  ∷ []
                else chain_results m lib (some client) (some n.sender)
                    (some (registry_at next senders w)) (some (allowlist_at w)) env)
              (ap (λ b. b || false) (fails-counter_check next))
              (rw well_formed (chain_results-none w env sends owns supports)))

    -- What register-extension prints is an id with which the registration checks pass: if the command
    -- prints a text, `extension.env` holds that text as the id, and the registry has the file's sender
    -- under that id and tells its next id, then the checks in the world behind the command add no
    -- failure to a report. The contracts keep their promises, and the ids that they tell have 256 bits.
    pub register_extension_printed-passes :
        ((id : ℕ) → Contracts n c id)
        → TellsSmall n support c hex hex_to_address zero_address
        → (sender text path : String) (w w' : W) (r : Report)
        → register_extension_printed n support c hex hex_to_address zero_address sender w
          ≡ (ok text, w')
        → (parse_extension_env m path).extension_id ≡ text
        → senders (extension_number text)
          ≡ ok (lib.hex_to_address (parse_extension_env m path).instruction_sender)
        → has_failures (
            register_registration_checks m lib
              (some client)
              (some n.sender)
              (some (registry_at next senders w'))
              (some (allowlist_at w'))
              path
              r)
          ≡ has_failures r
    unfolding register_registration_checks
    register_extension_printed-passes laws small sender text path w w' r runs file sends =
        let printed =
          of_Ensures (IsPrinted n support c hex hex_to_address zero_address)
            (register_extension_printed-IsPrinted n support c hex hex_to_address zero_address laws
              small sender w)
            runs in
        let (well, number) = extension_id_text-extension_number printed.id printed.bounded in
        let same : (parse_extension_env m path).extension_id ≡ extension_id_text printed.id =
          file ∙ printed.prints in
        let named : extension_number (parse_extension_env m path).extension_id ≡ printed.id =
          ap extension_number same ∙ number in
        let env = parse_extension_env m path in
        let skipped =
          id_res "R1-R7" "registration checks" skip "no --config path provided" "" ∷ [] in
        let results =
          env_results m lib (some client) (some n.sender) (some (registry_at next senders w'))
            (some (allowlist_at w')) env in
        has_failures-add_all r (if is_empty path then skipped else results)
        ∙ nothing_added (has_failures r) (any fails (if is_empty path then skipped else results)) (
            if_elim (λ x. any fails x ≡ false) (is_empty path) (λ _. refl)
              (λ _.
                env_results-none w' env (ap is_extension_id same ∙ well)
                  (ap (λ t. senders (extension_number t)) file ∙ sends)
                  (subst (λ id. Owns n c id w') (sym named) printed.owns)
                  (subst (λ id. Supports n c id w') (sym named) printed.supports)))
      where
        nothing_added : (a b : Bool) → b ≡ false → (a || b) ≡ a
        nothing_added a b h = ground arith
