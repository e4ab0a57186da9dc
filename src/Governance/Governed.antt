-- ===== src/Governance/Governed.antt =====
-- What the chain holds behind a governance that was set.
use mindorr.Prelude.{
  ℕ, ◌≡◌, refl, ap, ◌≤◌, Bool, true, false, ◌||◌, Result, ok, err, List, length, eqb, ltb, arith,
  if_elim,
}
use mindorr.Wire.{Hash, same_hash_iff}
use mindorr.Checks.Deploy.{Address}
use mindorr.Registration.{Io, Done, done, Node, returned}
use mindorr.Registration.Revert.{check_tx}
use mindorr.Registration.Setup.{worded}
use mindorr.Registration.Ensures.{
  map-Ensures, Ensures, Mined, next-Ensures, lift-Ensures, sent-Ensures, check_tx-Ensures,
  worded-eq-ok, of_Ensures,
}
use mindorr.Governance.{GovernanceContract, set_tee_governance, change, change_unless, is_current}

module _ {W Log : Type 0} (n : Node W Log) (g : GovernanceContract W) where
  -- The contract keeps what a mined transaction sets: the hash of the signers and the threshold.
  abbrev pub KeepsHash : Type 0
  KeepsHash =
      (id : ℕ) (signers : List Address) (threshold : ℕ) (hash : Hash) (w w2 : W)
      → g.governance_hash signers threshold ≡ ok hash
      → Mined n (g.set_new id signers threshold) w w2
      → g.get_latest id w2 ≡ ok hash

  -- The threshold lies between 1 and the number of signers, and the chain's latest governance is the
  -- one of these signers and this threshold.
  pub record IsGoverned (id : ℕ) (signers : List Address) (threshold : ℕ) (w : W) : Type 0 where
    pub at_least_1 : 1 ≤ threshold
    pub at_most_all : threshold ≤ length signers
    pub hash : Hash
    pub hashed : g.governance_hash signers threshold ≡ ok hash
    pub latest : g.get_latest id w ≡ ok hash

  is_current-eq-true :
      (answer : Result Hash) (desired : Hash)
      → is_current answer desired ≡ true
      → answer ≡ ok desired
  is_current-eq-true (ok current) desired h = ap ok ((same_hash_iff current desired).0 h)
  is_current-eq-true (err e) desired h = cc

  module _ (keeps : KeepsHash) (id : ℕ) (signers : List Address) (threshold : ℕ) where
    change-latest :
        (hash : Hash)
        → g.governance_hash signers threshold ≡ ok hash
        → (w : W)
        → Ensures (λ d w2. g.get_latest id w2 ≡ ok hash) (change n g id signers threshold w)
    change-latest hash h w =
        let Q = λ (d : Done) (w2 : W). g.get_latest id w2 ≡ ok hash in
        lift-Ensures Q _ g.transactor w λ _ _.
          next-Ensures (λ tx w1. g.set_new id signers threshold w ≡ (returned tx, w1)) Q _ _
            (sent-Ensures n _ (g.set_new id signers threshold w))
            λ tx w1 sends.
              next-Ensures _ Q _ (check_tx n tx w1) (check_tx-Ensures n tx w1)
                λ receipt w2 (mines, succeeds). keeps id signers threshold hash w w2 h (record {
                  tx = tx;
                  between = w1;
                  receipt = receipt;
                  sends = sends;
                  mines = mines;
                  succeeds = succeeds;
                })

    change_unless-latest :
        (hash : Hash)
        → g.governance_hash signers threshold ≡ ok hash
        → (w : W) (b : Bool) → is_current (g.get_latest id w) hash ≡ b
        → Ensures
            (λ d w2. g.get_latest id w2 ≡ ok hash)
            (change_unless n g b (change n g id signers threshold) w)
    change_unless-latest hash h w true e = is_current-eq-true (g.get_latest id w) hash e
    change_unless-latest hash h w false e = change-latest hash h w

    set_tee_governance-Ensures :
        (w : W)
        → Ensures
            (λ d w2. IsGoverned id signers threshold w2)
            (set_tee_governance n g id signers threshold w)
    unfolding set_tee_governance
    set_tee_governance-Ensures w =
        let Q = λ (d : Done) (w2 : W). IsGoverned id signers threshold w2 in
        let R = λ (run : Io W Done). Ensures Q (run w) in
        if_elim R (eqb (length signers) 0) (λ _. tt)
          (λ some_signer.
            if_elim R (eqb threshold 0 || ltb (length signers) threshold) (λ _. tt)
              (λ in_range.
                lift-Ensures Q _
                  (worded "computing governance hash: " (g.governance_hash signers threshold)) w
                  λ hash h.
                    let hashed = worded-eq-ok _ (g.governance_hash signers threshold) h in
                    map-Ensures Q
                      (change_unless n g (is_current (g.get_latest id w) hash)
                        (change n g id signers threshold) w)
                      (change_unless-latest hash hashed w (is_current (g.get_latest id w) hash)
                        refl)
                      (λ d w2 latest. record {
                        at_least_1 = ground (arith, in_range);
                        at_most_all = ground (arith, in_range);
                        hash = hash;
                        hashed = hashed;
                        latest = latest;
                      })))

  module _ (id : ℕ) (signers : List Address) (threshold : ℕ) (w : W)
      (set : IsGoverned id signers threshold w) where
    open set use {at_least_1, at_most_all, hash, hashed, latest}

    -- Where the governance is already set, nothing is done.
    set_tee_governance-again : set_tee_governance n g id signers threshold w ≡ (ok done, w)
    unfolding set_tee_governance
    set_tee_governance-again =
        let some_signer : eqb (length signers) 0 ≡ false = ground arith in
        let in_range : (eqb threshold 0 || ltb (length signers) threshold) ≡ false = ground arith in
        let same = (same_hash_iff hash hash).1 refl in
        rw (some_signer, in_range, hashed, latest, same) refl

  -- Setting the governance succeeds only with a threshold from 1 to the number of signers, and then
  -- the chain's latest governance is the one of these signers and this threshold, and setting it again
  -- does nothing; the contract keeps what a mined transaction sets.
  pub set_tee_governance-IsGoverned :
      (keeps : KeepsHash) (id : ℕ) (signers : List Address) (threshold : ℕ) (w w' : W)
      → set_tee_governance n g id signers threshold w ≡ (ok done, w')
      → IsGoverned id signers threshold w'
        × (set_tee_governance n g id signers threshold w' ≡ (ok done, w'))
  set_tee_governance-IsGoverned keeps id signers threshold w w' h =
      let set =
        of_Ensures (λ (d : Done) (w2 : W). IsGoverned id signers threshold w2)
          (set_tee_governance-Ensures keeps id signers threshold w) h in
      (set, set_tee_governance-again id signers threshold w' set)
