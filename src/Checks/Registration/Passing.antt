-- ===== src/Checks/Registration/Passing.antt =====
-- What a registration report without a failure says of the contracts.
use mindorr.Prelude.{
  if◌then◌else◌, ◌∷◌, Bool-cases, any, Result, ◌≡◌, refl, ok, err, false, true, arith, some, ◌⊎◌,
  inl, inr, ◌&&◌, sym, ◌∙◌,
}
use mindorr.Checks.Registration.{
  [], id_res, all_unique_checks, env_results, extension_number, chain_results, sender_checks,
  register_registration_checks, OwnerAllowlist, key_type_check, owner_check, sender_check,
  counter_check, ExtensionManager, Bool, String, ℕ, Library,
}
use mindorr.Checks.EnvFile.{parse_extension_env, is_extension_id, is_address, Env, Machine}
use mindorr.Checks.Deploy.{Address, Client}
use mindorr.Report.{skip, has_failures, Report}
use mindorr.Checks.Verdicts.{has_failures-add_all, neither, none_of_append, fails}
use mindorr.Wire.{copy_into_32, same_hash_iff}
use mindorr.Text.{is_empty}

counter_check-passes :
    (answer : Result ℕ) → fails (counter_check answer) ≡ false → (n : ℕ) × (answer ≡ ok n)
counter_check-passes (err e) h = ground (arith, h)
counter_check-passes (ok n) h = (n, refl)

sender_check-passes :
    (lib : Library) (sender : String) (answer : Result Address)
    → fails (sender_check lib sender answer) ≡ false
    → answer ≡ ok (lib.hex_to_address sender)
sender_check-passes lib sender (err e) h = ground (arith, h)
sender_check-passes lib sender (ok on_chain) h =
    let same = same_hash_iff on_chain (lib.hex_to_address sender) in ground (arith, h, same)

owner_check-passes : (answer : Result Bool) → fails (owner_check answer) ≡ false → answer ≡ ok true
owner_check-passes (err e) h = ground (arith, h)
owner_check-passes (ok true) h = refl
owner_check-passes (ok false) h = ground (arith, h)

key_type_check-passes :
    (answer : Result Bool) → fails (key_type_check answer) ≡ false → answer ≡ ok true
key_type_check-passes (err e) h = ground (arith, h)
key_type_check-passes (ok true) h = refl
key_type_check-passes (ok false) h = ground (arith, h)

module _ (m : Machine) (lib : Library) (client : Client) (key : Address)
    (registry : ExtensionManager) (allowlist : OwnerAllowlist) where
  -- What the chain says of the extension that the file names.
  abbrev pub IsRegistered : Env → Type 0
  IsRegistered env =
      ((is_address env.instruction_sender ≡ false)
        ⊎ (registry.tee_extension_instructions_sender (extension_number env.extension_id)
            ≡ ok (lib.hex_to_address env.instruction_sender)))
      × (allowlist.is_allowed_tee_machine_owner (extension_number env.extension_id) key ≡ ok true)
      × (registry.is_key_type_supported (extension_number env.extension_id)
            (copy_into_32 lib.evm_type)
          ≡ ok true)

  sender_checks-pass :
      (sender : String) (id : ℕ)
      → any fails (sender_checks lib (some client) (some registry) sender id) ≡ false
      → (is_address sender ≡ false)
        ⊎ (registry.tee_extension_instructions_sender id ≡ ok (lib.hex_to_address sender))
  sender_checks-pass sender id h = elim (Bool-cases (is_address sender)) [
    | inl e ↦ inr (sender_check-passes lib sender _ (ground (arith, h, e)))
    | inr e ↦ inl e
  ]

  chain_results-pass :
      (env : Env)
      → any fails
          (chain_results m lib (some client) (some key) (some registry) (some allowlist) env)
        ≡ false
      → IsRegistered env
  chain_results-pass env h =
      let id = extension_number env.extension_id in
      let (senders, parts) =
        none_of_append (sender_checks lib (some client) (some registry) env.instruction_sender id)
          (owner_check (allowlist.is_allowed_tee_machine_owner id key)
            ∷ (key_type_check (registry.is_key_type_supported id (copy_into_32 lib.evm_type))
                ∷ all_unique_checks lib (some client) (some registry) env.instruction_sender))
          h in
      let (owner, parts) =
        neither (fails (owner_check (allowlist.is_allowed_tee_machine_owner id key))) _ parts in
      let (key_type, rest) =
        neither
          (fails (key_type_check (registry.is_key_type_supported id (copy_into_32 lib.evm_type)))) _
          parts in
      (
        sender_checks-pass env.instruction_sender id senders,
        owner_check-passes _ owner,
        key_type_check-passes _ key_type,
      )

  env_results-pass :
      (env : Env)
      → is_empty env.extension_id && is_empty env.instruction_sender ≡ false
      → any fails (env_results m lib (some client) (some key) (some registry) (some allowlist) env)
        ≡ false
      → (is_extension_id env.extension_id ≡ true)
        × ((n : ℕ) × (registry.next_public_extension_id ≡ ok n))
        × IsRegistered env
  env_results-pass env found h = elim (Bool-cases (is_extension_id env.extension_id)) [
    | inl e ↦
        let k = rw (found, e) at h in
        let (counter, chain) =
          neither (fails (counter_check registry.next_public_extension_id)) _ k in
        (e, counter_check-passes _ counter, chain_results-pass env chain)
    | inr e ↦ ground (arith, h, found, e)
  ]

  -- A registration report on a path whose file gives an id or a sender, with a client, a key and both
  -- contracts, and without a failure, found the id well formed and the next public id readable; the
  -- instruction sender on the chain is the one in the file, unless that is no address; the deployer
  -- may own a machine, and the EVM key type is supported. The report was without a failure before.
  pub register_registration_checks-passing :
      (path : String) (r : Report)
      → is_empty path ≡ false
      → is_empty (parse_extension_env m path).extension_id
          && is_empty (parse_extension_env m path).instruction_sender
        ≡ false
      → has_failures (
          register_registration_checks m lib
            (some client)
            (some key)
            (some registry)
            (some allowlist)
            path
            r)
        ≡ false
      → (has_failures r ≡ false)
        × (is_extension_id (parse_extension_env m path).extension_id ≡ true)
        × ((n : ℕ) × (registry.next_public_extension_id ≡ ok n))
        × IsRegistered (parse_extension_env m path)
  unfolding register_registration_checks
  register_registration_checks-passing path r given found h =
      let env = parse_extension_env m path in
      let results =
        if is_empty path
        then id_res "R1-R7" "registration checks" skip "no --config path provided" "" ∷ []
        else env_results m lib (some client) (some key) (some registry) (some allowlist) env in
      let (before, fine) =
        neither (has_failures r) (any fails results) (sym (has_failures-add_all r results) ∙ h) in
      let (id, counter, chain) = env_results-pass env found (rw given at fine) in
      (before, id, counter, chain)
