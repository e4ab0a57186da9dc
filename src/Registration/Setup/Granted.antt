-- ===== src/Registration/Setup/Granted.antt =====
-- What the chain holds behind a set-up that succeeds.
use mindorr.Prelude.{
  subst, concat, eqb, List, ℕ, Bool, String, Result, ◌≡◌, refl, ok, err, [], ◌∷◌, true, false,
  arith, if_elim,
}
use mindorr.Registration.{and_then, lift, Receipt, Called, Done, next, Node, Io, returned, reverted}
use mindorr.Registration.Setup.{
  register_extension, setup_extension, ensure, add_supported_key_types, transact,
  allow_tee_project_manager_owners, allow_tee_machine_owners, set_up, grant_where, Registrar,
  worded_io,
}
use mindorr.Wire.{Hash}
use mindorr.Registration.Revert.{mining_error, check_tx}
use mindorr.Registration.Requests.{sent}
use mindorr.Checks.Deploy.{Address}
use mindorr.Registration.Outcomes.{next_elim}
use mindorr.Registration.Ensures.{Mined}

-- What holds of the world behind a run that does not fail.
abbrev pub Post : {W A : Type 0} → (W → Type 0) → Result A × W → Type 0
Post P (err e, w) = Unit
Post P (ok a, w) = P w

next-Post :
    {W A B : Type 0} (P Q : W → Type 0) (f : A → Io W B) (r : Result A × W)
    → Post P r
    → ((a : A) (w : W) → P w → Post Q (f a w))
    → Post Q (next f r)
next-Post P Q f (err e, w) h goes = tt
next-Post P Q f (ok a, w) h goes = goes a w h

lift-Post : {W A : Type 0} (P : W → Type 0) (r : Result A) (w : W) → P w → Post P (r, w)
lift-Post P (err e) w h = tt
lift-Post P (ok a) w h = h

worded_io-Post :
    {W A : Type 0} (P : W → Type 0) (text : String) (r : Result A × W)
    → Post P r
    → Post P (worded_io text r)
worded_io-Post P text (err e, w) h = tt
worded_io-Post P text (ok a, w) h = h

grant_where-Post :
    {W : Type 0} (P : W → Type 0) (known : Result Bool) (text : String) (grant : Io W Done) (w : W)
    → (known ≡ ok true → P w)
    → Post P (grant w)
    → Post P (grant_where known text grant w)
grant_where-Post P (err e) text grant w h g = tt
grant_where-Post P (ok true) text grant w h g = h refl
grant_where-Post P (ok false) text grant w h g = g

module _ {W Log : Type 0} (n : Node W Log) (c : Registrar W Log) where
  module _ {A : Type 0} (P : W → Type 0) (failed unmined : String) (call : W → Called Hash × W)
      (read : List Log → Result A) (w : W) (goes : (w2 : W) → Mined n call w w2 → P w2) where
    read-Post : (r : Result A) (w2 : W) → Mined n call w w2 → Post P (r, w2)
    read-Post (err e) w2 m = tt
    read-Post (ok a) w2 m = goes w2 m

    mined-Post :
        (tx : Hash) (w1 : W)
        → call w ≡ (returned tx, w1)
        → (answer : Result (Receipt Log) × W) → n.wait_mined tx w1 ≡ answer
        → Post P (
            next
              (λ receipt. lift (read receipt.logs))
              (worded_io unmined (mining_error n tx answer)))
    mined-Post tx w1 e (err text, w2) e' = tt
    mined-Post tx w1 e (ok receipt, w2) e' =
        if_elim
          (λ x.
            Post P
              (next (λ (receipt : Receipt Log). lift (read receipt.logs)) (worded_io unmined x)))
          (eqb receipt.status 0) (λ _. tt)
          (λ b. read-Post (read receipt.logs) w2 (record {
            tx = tx;
            between = w1;
            receipt = receipt;
            sends = e;
            mines = e';
            succeeds = ground (arith, b);
          }))

    sent-Post :
        (r : Called Hash × W)
        → call w ≡ r
        → Post P (
            next
              (λ tx.
                and_then
                  (λ w. worded_io unmined (check_tx n tx w))
                  (λ receipt. lift (read receipt.logs)))
              (sent n (λ e. concat (failed ∷ e ∷ [])) r))
    unfolding check_tx
    sent-Post (reverted e, w1) h = tt
    sent-Post (returned tx, w1) h = mined-Post tx w1 h (n.wait_mined tx w1) refl

    pub transact-Post : Post P (transact n c failed unmined call read w)
    transact-Post = sent-Post (call w) refl

  abbrev pub Owns : ℕ → W → Type 0
  Owns id w = c.is_tee_machine_owner id n.sender w ≡ ok true

  abbrev pub OwnsProjects : ℕ → W → Type 0
  OwnsProjects id w = c.is_wallet_project_owner id n.sender w ≡ ok true

  abbrev pub Supports : ℕ → W → Type 0
  Supports id w = c.is_key_type_supported id c.evm_type w ≡ ok true

  -- What the contracts promise: each of the three transactions, mined without a failure, has its
  -- effect, and the later ones take nothing back.
  pub record Contracts (id : ℕ) : Type 0 where
    pub owns : (w w2 : W) → Mined n (c.add_tee_machine_owners id (n.sender ∷ [])) w w2 → Owns id w2
    pub owns_projects :
        (w w2 : W)
        → Mined n (c.add_wallet_project_owners id (n.sender ∷ [])) w w2
        → OwnsProjects id w2 × (Owns id w → Owns id w2)
    pub supports :
        (w w2 : W)
        → Mined n (c.add_supported_key_types id (c.evm_type ∷ [])) w w2
        → Supports id w2 × (Owns id w → Owns id w2) × (OwnsProjects id w → OwnsProjects id w2)

  key_types-Post :
      (id : ℕ)
      → Contracts id
      → (w : W) → Owns id w × OwnsProjects id w
      → Post
          (λ w'. Owns id w' × OwnsProjects id w' × Supports id w')
          (ensure n c
            (c.is_key_type_supported id c.evm_type)
            ""
            (add_supported_key_types n c id (c.evm_type ∷ []))
            w)
  unfolding add_supported_key_types
  key_types-Post id laws w (h1, h2) =
      grant_where-Post (λ w'. Owns id w' × OwnsProjects id w' × Supports id w') _ _ _ w
        (λ h. (h1, h2, h))
        (next-Post (λ w'. Owns id w' × OwnsProjects id w') _ _ _
          (lift-Post _ n.transactor w (h1, h2))
          (λ _ w1 (k1, k2).
            transact-Post (λ w'. Owns id w' × OwnsProjects id w' × Supports id w') _ _ _ _ w1
              (λ w2 m. let (s, ko, kp) = laws.supports w1 w2 m in (ko k1, kp k2, s))))

  set_up-Post :
      (id : ℕ)
      → Contracts id
      → (w : W) → Post (λ w'. Owns id w' × OwnsProjects id w' × Supports id w') (set_up n c id w)
  unfolding set_up allow_tee_machine_owners allow_tee_project_manager_owners add_supported_key_types
  set_up-Post id laws w =
      next-Post (Owns id) _ _ _
        (grant_where-Post (Owns id) _ _ _ w (λ h. h)
          (worded_io-Post (Owns id) _ _
            (transact-Post (Owns id) _ _ _ _ w (λ w2 m. laws.owns w w2 m))))
        (λ _ w1 h1.
          next-Post (λ w'. Owns id w' × OwnsProjects id w') _ _ _
            (grant_where-Post (λ w'. Owns id w' × OwnsProjects id w') _ _ _ w1 (λ h. (h1, h))
              (worded_io-Post (λ w'. Owns id w' × OwnsProjects id w') _ _
                (transact-Post (λ w'. Owns id w' × OwnsProjects id w') _ _ _ _ w1
                  (λ w2 m. let (h, keeps) = laws.owns_projects w1 w2 m in (keeps h1, h)))))
            (λ _ w2 k. key_types-Post id laws w2 k))

  -- The id that a run gives, with what the chain holds of it.
  abbrev IsSetUp : Result ℕ × W → Type 0
  IsSetUp (err e, w) = Unit
  IsSetUp (ok id, w) = Owns id w × OwnsProjects id w × Supports id w

  with_id-IsSetUp :
      (id : ℕ) (r : Result Done × W)
      → Post (λ w'. Owns id w' × OwnsProjects id w' × Supports id w') r
      → IsSetUp (next (λ _. lift (ok id)) r)
  with_id-IsSetUp id (err e, w) h = tt
  with_id-IsSetUp id (ok d, w) h = h

  -- A set-up that succeeds leaves the deployer as an allowed owner of machines and of wallet projects
  -- of the new extension, and the EVM key type supported, whether the chain showed that already or a
  -- transaction was needed; the contracts keep their promises for every extension.
  pub setup_extension-granted :
      (laws : (id : ℕ) → Contracts id) (instructions_sender state_verifier : Address) (w w' : W)
      (id : ℕ)
      → setup_extension n c instructions_sender state_verifier w ≡ (ok id, w')
      → Owns id w' × OwnsProjects id w' × Supports id w'
  unfolding setup_extension
  setup_extension-granted laws instructions_sender state_verifier w w' id h =
      let fails : (e : String) (w : W) → IsSetUp (err e, w) = λ e w. tt in
      subst IsSetUp h (
        next_elim IsSetUp _ fails
          (λ _ w1.
            next_elim IsSetUp _ fails
              (λ id w2. with_id-IsSetUp id (set_up n c id w2) (set_up-Post id (laws id) w2))
              (register_extension n c instructions_sender state_verifier w1))
          (lift n.transactor w))
