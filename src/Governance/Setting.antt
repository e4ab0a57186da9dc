-- ===== src/Governance/Setting.antt =====
-- What a run of the command set-governance leaves on the chain.
use mindorr.Prelude.{ℕ, ◌≡◌, ◌∙◌, ap, ok, List}
use mindorr.Checks.Deploy.{Address}
use mindorr.Registration.{Done, done, Node}
use mindorr.Registration.Ensures.{
  Gives, Gives-Ensures, lift-Ensures, next-Ensures, map-Ensures, of_Ensures, only_done,
}
use mindorr.Governance.{
  Command, set_governance, set_tee_governance, parse_signers, parse_threshold, default_signer,
  owner_key,
}
use mindorr.Governance.Governed.{IsGoverned, KeepsHash, set_tee_governance-IsGoverned}

module _ {W Log : Type 0} (n : Node W Log) (c : Command W) where
  -- The signers and the threshold of the environment, with the default signer for a key.
  abbrev pub signers_for : c.PrivateKey → List Address
  signers_for key =
      parse_signers c.hex_to_address (c.getenv "GOVERNANCE_SIGNERS")
        (default_signer n c (c.address_of key))

  abbrev pub threshold_set : ℕ
  threshold_set = parse_threshold (c.getenv "GOVERNANCE_THRESHOLD")

  -- For the owner's key and the id that the extension's info gives at the start, the chain's
  -- governance is the one that the environment names.
  pub record HasSet (w w' : W) : Type 0 where
    pub default_key : c.PrivateKey
    pub started : c.support ≡ ok default_key
    pub key : c.PrivateKey
    pub chosen : owner_key n c default_key ≡ ok key
    pub id : ℕ
    pub told : W
    pub tells : c.tee_info w ≡ (ok id, told)
    pub governed : IsGoverned n (c.contract key) id (signers_for key) threshold_set w'

  -- If the contract of every key keeps what a mined transaction sets, a run of the command that succeeds
  -- leaves, for the owner's key and the id of the extension that the TEE info gives, the signers and the threshold of the environment
  -- as the latest governance, the threshold between 1 and the number of the signers.
  pub set_governance-HasSet :
      ((key : c.PrivateKey) → KeepsHash n (c.contract key))
      → (w w' : W) → set_governance n c w ≡ (ok done, w')
      → HasSet w w'
  unfolding set_governance
  set_governance-HasSet keeps w w' h =
      let Q = λ (d : Done) (v : W). HasSet w v in
      of_Ensures Q
        (lift-Ensures Q _ c.support w λ default started.
          lift-Ensures Q _ (owner_key n c default) w λ key chosen.
            next-Ensures (Gives (c.tee_info w)) Q _ _ (Gives-Ensures (c.tee_info w)) λ id w1 tells.
              let run =
                set_tee_governance n (c.contract key) id (signers_for key) threshold_set w1 in
              map-Ensures Q run (Gives-Ensures run) (λ d v e. record {
                default_key = default;
                started = started;
                key = key;
                chosen = chosen;
                id = id;
                told = w1;
                tells = tells;
                governed =
                    (set_tee_governance-IsGoverned n (c.contract key) (keeps key) id
                      (signers_for key) threshold_set w1 v
                      (e ∙ ap (λ d. (ok d, v)) (only_done d))).0;
              }))
        h
