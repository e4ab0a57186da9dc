-- ===== src/Commands/Preflight.antt =====
-- What was checked before a contract is deployed.
use mindorr.Prelude.{
  if◌then◌else◌, ◌≡◌, refl, eqb, false, Option, none, some, String, Result, ok, err, arith,
  Bool-cases, inl, inr, eqb_iff,
}
use mindorr.Wire.{Hash}
use mindorr.Checks.Deploy.{
  Address, is_zero, address_not_zero, address_has_code, key_has_funds, min_deploy_balance,
}
use mindorr.Checks.Deploy.Passing.{HasCode, IsFunded, code_error-passes, funds_error-passes}
use mindorr.Registration.{next, then_do, Done, Called, returned, reverted, Receipt, Node}
use mindorr.Registration.Ensures.{Ensures, lift-Ensures, then_do-eq-ok}
use mindorr.Registration.Setup.{worded}
use mindorr.Instructions.{SenderContract, deploy_instruction_sender, deploying, deployed}
use mindorr.Commands.{deployed_unless, written, Started, preflight, or_fatal, deploy_contract}
use mindorr.Text.{is_empty}

or_fatal-eq-ok : (o : Option String) {d : Done} → or_fatal o ≡ ok d → o ≡ none
or_fatal-eq-ok none h = refl
or_fatal-eq-ok (some e) h = cc

-- The manager is not the zero address and has code, and the deployer has the minimum balance.
pub record IsReady (s : Started) : Type 0 where
  pub not_zero : is_zero s.manager ≡ false
  pub has_code : HasCode s.client s.manager
  pub funded : IsFunded s.client s.deployer

module _ {W Log : Type 0} (n : Node W Log) (c : SenderContract W) where
  -- A contract is deployed from `w`, in a transaction that is mined with status 1 in `w2`.
  pub record IsDeployed (address : Address) (w w2 : W) : Type 0 where
    pub tx : Hash
    pub between : W
    pub receipt : Receipt Log
    pub sends : c.deploy c.tee_manager c.tee_manager w ≡ (returned (address, tx), between)
    pub mines : n.wait_mined tx between ≡ (ok receipt, w2)
    pub succeeds : receipt.status ≡ 1

  mined-IsDeployed :
      (address : Address) (tx : Hash) (w w1 w2 : W)
      → c.deploy c.tee_manager c.tee_manager w ≡ (returned (address, tx), w1)
      → (answer : Result (Receipt Log)) → n.wait_mined tx w1 ≡ (answer, w2)
      → Ensures (λ a w'. IsDeployed a w w') (deployed n c address tx answer, w2)
  mined-IsDeployed address tx w w1 w2 sends (err e) mines = tt
  mined-IsDeployed address tx w w1 w2 sends (ok receipt) mines =
      elim (Bool-cases (eqb receipt.status 1)) [
        | inr bad ↦ rw (Ensures, bad) tt
        | inl good ↦
            rw (Ensures, good)
              (record {
                tx = tx;
                between = w1;
                receipt = receipt;
                sends = sends;
                mines = mines;
                succeeds = (eqb_iff _ _).0 good;
              })
      ]

  deploying-IsDeployed :
      (w : W) (r : Called (Address × Hash) × W)
      → c.deploy c.tee_manager c.tee_manager w ≡ r
      → Ensures (λ a w'. IsDeployed a w w') (deploying n c r)
  deploying-IsDeployed w (reverted e, w1) sends = tt
  deploying-IsDeployed w (returned (address, tx), w1) sends =
      mined-IsDeployed address tx w w1 (n.wait_mined tx w1).1 sends (n.wait_mined tx w1).0 refl

  -- A deployment that succeeds gives the address of a contract whose transaction is mined.
  deploy_instruction_sender-IsDeployed :
      (w : W) → Ensures (λ a w'. IsDeployed a w w') (deploy_instruction_sender n c w)
  unfolding deploy_instruction_sender
  deploy_instruction_sender-IsDeployed w =
      lift-Ensures (λ a w'. IsDeployed a w w') _
        (worded "failed to create transactor: " n.transactor) w
        λ _ _. deploying-IsDeployed w (c.deploy c.tee_manager c.tee_manager w) refl

  module _ (hex : Address → String) (write_file : String → Address → W → W) where
    address_not_zero-passes :
        (addr : Address) → address_not_zero hex addr "FlareTeeManager" ≡ none → is_zero addr ≡ false
    unfolding address_not_zero
    address_not_zero-passes addr h = ground (arith, h)

    preflight-IsReady :
        (support : Result Started) (s : Started) {d : Done}
        → preflight n support hex c write_file s ≡ ok d
        → IsReady s
    unfolding preflight address_not_zero address_has_code key_has_funds
    preflight-IsReady support s h =
        let (_, zero, h1) =
          then_do-eq-ok (or_fatal (address_not_zero hex s.manager "FlareTeeManager")) _ h in
        let (_, coded, h2) =
          then_do-eq-ok
            (or_fatal (address_has_code hex (some s.client) s.manager "FlareTeeManager")) _ h1 in
        record {
          not_zero = address_not_zero-passes s.manager (or_fatal-eq-ok _ zero);
          has_code =
              code_error-passes hex s.manager "FlareTeeManager" (s.client.code_at s.manager)
                (or_fatal-eq-ok _ coded);
          funded =
              funds_error-passes hex s.deployer min_deploy_balance (s.client.balance_at s.deployer)
                (or_fatal-eq-ok _ h2);
        }

    -- What a run behind the checks has done: the deployment failed; or it succeeded, and behind it
    -- only the file with the address is written, if one is asked for.
    abbrev pub HasRun : String → W → Result (Option Address) × W → Type 0
    HasRun out_file w (err e, w') = deploy_instruction_sender n c w ≡ (err e, w')
    HasRun out_file w (ok none, w') = ⊥
    HasRun out_file w (ok (some address), w') =
        (w1 : W) × IsDeployed address w w1
        × ((if is_empty out_file then w1 else write_file out_file address w1) ≡ w')

    -- The two ways of a run from `w`: it ends in `w`, with the error of `DefaultSupport` or of one of
    -- the checks; or all checks hold, and it goes on to the deployment.
    pub data IsGuarded (support : Result Started) (out_file : String) (w : W)
        (r : Result (Option Address) × W) : Type 0 where
      stopped :
          (e : String)
          → then_do support (preflight n support hex c write_file) ≡ err e
          → r ≡ (err e, w)
          → IsGuarded support out_file w r
      went_on :
          (s : Started)
          → support ≡ ok s
          → IsReady s
          → HasRun out_file w r
          → IsGuarded support out_file w r

    written-HasRun :
        (support : Result Started) (out_file : String) (w : W) (r : Result Address × W)
        → deploy_instruction_sender n c w ≡ r
        → Ensures (λ a w1. IsDeployed a w w1) r
        → HasRun out_file w (next (written n support hex c write_file out_file) r)
    written-HasRun support out_file w (err e, w1) runs h = runs
    written-HasRun support out_file w (ok a, w1) runs h = (w1, h, refl)

    checked-IsGuarded :
        (s : Started) (out_file : String) (w : W) (checks : Result Done)
        → preflight n (ok s) hex c write_file s ≡ checks
        → IsGuarded
            (ok s)
            out_file
            w
            (next (λ _. deployed_unless n (ok s) hex c write_file false out_file) (checks, w))
    checked-IsGuarded s out_file w (err e) h = stopped e h refl
    checked-IsGuarded s out_file w (ok d) h = went_on s refl (preflight-IsReady (ok s) s h) (
        written-HasRun (ok s) out_file w (deploy_instruction_sender n c w) refl
          (deploy_instruction_sender-IsDeployed w))

    -- A run that is not only for the checks either ends in the world in which it began, so that it has
    -- sent nothing, with the error of `DefaultSupport` or of a check; or the manager's address is not
    -- zero and has code and the deployer has the minimum balance, and then the deployment from that
    -- world has failed with the run's error, or it has put the contract at the printed address in a
    -- transaction that was mined with status 1, and behind it only the file with the address is
    -- written, if one is asked for.
    pub deploy_contract-IsDeployed :
        (support : Result Started) (out_file : String) (w : W)
        → IsGuarded support out_file w (deploy_contract n support hex c write_file out_file false w)
    unfolding deploy_contract
    deploy_contract-IsDeployed (err e) out_file w = stopped e refl refl
    deploy_contract-IsDeployed (ok s) out_file w =
        checked-IsGuarded s out_file w (preflight n (ok s) hex c write_file s) refl
