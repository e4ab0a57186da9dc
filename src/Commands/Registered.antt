-- ===== src/Commands/Registered.antt =====
-- What the chain holds of an extension whose id extension/tools/cmd/register-extension/main.go prints.
pub mod Checked
mod Tests
use mindorr.Prelude.{
  if◌then◌else◌, not, concat, ℕ, ◌<◌, ◌^◌, Bool, true, false, ◌&&◌, ◌||◌, any, some, String, Result,
  ok, err, [], ◌∷◌, ◌++◌, ◌≡◌, refl, ◌∙◌, ap, arith, sym, subst, eqb, ltb, length, List, if_elim,
}
use mindorr.Text.{is_empty, eq_of_is_empty}
use mindorr.Wire.{Hash, copy_into_32, same_hash_iff}
use mindorr.Report.{fail, skip, CheckResult, Report, has_failures}
use mindorr.Checks.Deploy.{Address, Client, address_has_code}
use mindorr.Checks.EnvFile.{Machine, Env, parse_extension_env, is_address, is_extension_id}
use mindorr.Checks.Registration.{
  id_res, ExtensionManager, OwnerAllowlist, Library, register_registration_checks, env_results,
  chain_results, sender_checks, sender_check, counter_check, owner_check, key_type_check,
  unique_check, unique_checks, all_unique_checks, extension_number, matching_ids, int64_rounds,
}
use mindorr.Checks.Verdicts.{any-append, has_failures-add_all, fails}
use mindorr.Registration.{Io, Node, and_then, lift}
use mindorr.Registration.Ensures.{
  Ensures, lift-Ensures, next-Ensures, any-Ensures, result-Ensures, of_Ensures, then_do-eq-ok,
  worded-eq-ok,
}
use mindorr.Registration.Setup.{
  Registrar, setup_extension, register_extension, registered_id, set_up, worded, worded_io,
}
use mindorr.Registration.Requests.{sent}
use mindorr.Registration.Revert.{check_tx}
use mindorr.Registration.Setup.Granted.{
  Contracts, Owns, OwnsProjects, Supports, setup_extension-granted,
}
use mindorr.Commands.{Started, or_fatal, register_extension_command}
use mindorr.Commands.Printed.{extension_id_text, extension_id_text-extension_number}

module _ {W Log : Type 0} (n : Node W Log) (c : Registrar W Log)
    (small : (log : Log) (id : ℕ) → c.parse_extension_registered log ≡ ok id → id < 2 ^ 256) where
  registered_id-small : (logs : List Log) (id : ℕ) → registered_id n c logs ≡ ok id → id < 2 ^ 256
  registered_id-small [] id h = cc
  registered_id-small (first ∷ []) id h = cc
  registered_id-small (first ∷ second ∷ logs) id h =
      let (found, parsed, h1) = then_do-eq-ok _ _ h in
      let (d, set, h2) =
        then_do-eq-ok
          (worded "failed to parse TeeExtensionContractsSet event: " (c.parse_contracts_set second))
          _ h1 in
      small first id (worded-eq-ok _ _ parsed ∙ h2)

  register_extension-small :
      (a b : Address) (w : W) → Ensures (λ id w'. id < 2 ^ 256) (register_extension n c a b w)
  unfolding register_extension
  register_extension-small a b w =
      let Q = λ (id : ℕ) (w' : W). id < 2 ^ 256 in
      any-Ensures Q _ (sent n _ (c.register b a w)) λ tx w1.
        any-Ensures Q _ (worded_io "Register transaction failed: " (check_tx n tx w1)) λ receipt w2.
          result-Ensures Q (registered_id n c receipt.logs) w2 (registered_id-small receipt.logs)

  setup_extension-small :
      (a b : Address) (w : W) → Ensures (λ id w'. id < 2 ^ 256) (setup_extension n c a b w)
  unfolding setup_extension
  setup_extension-small a b w =
      let Q = λ (id : ℕ) (w' : W). id < 2 ^ 256 in
      lift-Ensures Q _ n.transactor w λ d _.
        next-Ensures Q Q _ (register_extension n c a b w) (register_extension-small a b w)
          λ id w1 lt. any-Ensures Q _ (set_up n c id w1) λ d w2. lt

module _ {W Log : Type 0} (n : Node W Log) (support : Result Started) (c : Registrar W Log)
    (hex : Address → String) (hex_to_address : String → Address) (zero_address : Address) where
  -- `main` of register-extension with the id as it prints it.
  unfoldable pub register_extension_printed : String → Io W String
  unfolding register_extension_command extension_id_text
  register_extension_printed sender =
      and_then (register_extension_command n support c hex hex_to_address zero_address sender)
        (λ id. lift (ok (extension_id_text id)))

  -- The text is the id of an extension that the chain knows as the set-up leaves it.
  pub record IsPrinted (text : String) (w' : W) : Type 0 where
    pub id : ℕ
    pub prints : text ≡ extension_id_text id
    pub bounded : id < 2 ^ 256
    pub owns : Owns n c id w'
    pub supports : Supports n c id w'

  abbrev IsKnown : ℕ → W → Type 0
  IsKnown id w' = (id < 2 ^ 256) × Owns n c id w' × Supports n c id w'

  -- An id that the contract tells has 256 bits.
  abbrev pub TellsSmall : Type 0
  TellsSmall = (log : Log) (id : ℕ) → c.parse_extension_registered log ≡ ok id → id < 2 ^ 256

  register_extension_command-IsKnown :
      ((id : ℕ) → Contracts n c id)
      → TellsSmall
      → (sender : String) (w : W)
      → Ensures IsKnown
          (register_extension_command n support c hex hex_to_address zero_address sender w)
  unfolding register_extension_command
  register_extension_command-IsKnown laws small sender w =
      let Q = λ (id : ℕ) (w' : W). IsKnown id w' in
      if_elim (λ (run : Io W ℕ). Ensures Q (run w)) (is_empty sender) (λ _. tt)
        (λ _. lift-Ensures Q _ support w λ s _.
          lift-Ensures Q _
            (or_fatal
              (address_has_code hex (some s.client) (hex_to_address sender) "InstructionSender"))
            w
            λ d _.
              granted (setup_extension n c (hex_to_address sender) zero_address w) refl
                (setup_extension-small n c small (hex_to_address sender) zero_address w))
    where
      granted :
          (run : Result ℕ × W)
          → setup_extension n c (hex_to_address sender) zero_address w ≡ run
          → Ensures (λ id v. id < 2 ^ 256) run
          → Ensures IsKnown run
      granted (err e, w') h lt = tt
      granted (ok id, w') h lt =
          let (owns, projects, supports) =
            setup_extension-granted n c laws (hex_to_address sender) zero_address w w' id h in
          (lt, owns, supports)

  pub register_extension_printed-IsPrinted :
      ((id : ℕ) → Contracts n c id)
      → TellsSmall
      → (sender : String) (w : W) → Ensures IsPrinted (register_extension_printed sender w)
  unfolding register_extension_printed
  register_extension_printed-IsPrinted laws small sender w =
      next-Ensures IsKnown IsPrinted (λ id. lift (ok (extension_id_text id)))
        (register_extension_command n support c hex hex_to_address zero_address sender w)
        (register_extension_command-IsKnown laws small sender w)
        (λ id w' (lt, owns, supports). record {
          id = id;
          prints = refl;
          bounded = lt;
          owns = owns;
          supports = supports;
        })
