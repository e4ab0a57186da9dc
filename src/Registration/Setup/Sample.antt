-- ===== src/Registration/Setup/Sample.antt =====
-- Contracts that remember what was granted, for tests.
use mindorr.Registration.{Called, Node, done, returned}
use mindorr.Registration.Ensures.{Mined}
use mindorr.Prelude.{ℕ, Bool, ◌≡◌, refl, ok, [], ◌∷◌, true, false, ap, ◌∙◌, subst}
use mindorr.Registration.Setup.{Registrar}
use mindorr.Registration.Setup.Granted.{Contracts}
use mindorr.Registration.Sample.{quiet}
use mindorr.Wire.{Hash, copy_into_32}

-- What has been granted so far.
pub record Grants : Type 0 where
  pub owner : Bool
  pub projects : Bool
  pub evm : Bool

abbrev pub chain : Node Grants ℕ
chain = quiet Grants

abbrev pub contracts : Registrar Grants ℕ
contracts = record {
  register = λ a b w. (returned (3 ∷ []), w);
  add_tee_machine_owners = λ i l w. (returned (3 ∷ []), record w { owner = true });
  add_wallet_project_owners = λ i l w. (returned (3 ∷ []), record w { projects = true });
  add_supported_key_types = λ i l w. (returned (3 ∷ []), record w { evm = true });
  add_tee_version = λ i v h p w. (returned (3 ∷ []), w);
  is_tee_machine_owner = λ i a w. ok w.owner;
  is_wallet_project_owner = λ i a w. ok w.projects;
  is_key_type_supported = λ i k w. ok w.evm;
  parse_extension_registered = λ l. ok 4;
  parse_contracts_set = λ l. ok done;
  parse_machine_owners_added = λ l. ok done;
  parse_project_owners_added = λ l. ok done;
  evm_type = copy_into_32 (69 ∷ []);
}

-- Where a mined transaction leads.
reached :
    (call : Grants → Called Hash × Grants) (w w2 : Grants) → Mined chain call w w2 → (call w).1 ≡ w2
reached call w w2 m = ap (λ r. r.1) m.sends ∙ ap (λ r. r.1) m.mines

pub keep_promises : (id : ℕ) → Contracts chain contracts id
keep_promises id = record {
  owns = λ w w2 m. subst (λ x. ok x.owner ≡ ok true) (reached _ w w2 m) refl;
  owns_projects = λ w w2 m. (
    subst (λ x. ok x.projects ≡ ok true) (reached _ w w2 m) refl,
    λ h. subst (λ x. ok x.owner ≡ ok true) (reached _ w w2 m) h,
  );
  supports = λ w w2 m. (
    subst (λ x. ok x.evm ≡ ok true) (reached _ w w2 m) refl,
    (λ h. subst (λ x. ok x.owner ≡ ok true) (reached _ w w2 m) h),
    λ h. subst (λ x. ok x.projects ≡ ok true) (reached _ w w2 m) h,
  );
}

abbrev pub nothing : Grants
nothing = record { owner = false; projects = true; evm = false }

abbrev pub everything : Grants
everything = record { owner = true; projects = true; evm = true }
