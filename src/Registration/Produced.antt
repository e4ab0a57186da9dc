-- ===== src/Registration/Produced.antt =====
-- A registration that is asked for the step "p".
use mindorr.Prelude.{ap, ◌≡◌, refl, true, String, Result, ok, err, arith}
use mindorr.Wire.{Hash, same_hash_iff}
use mindorr.Checks.Deploy.{Address}
use mindorr.Registration.{Io, Done, returned, Node, Proof}
use mindorr.Registration.Requests.{
  get_ftdc_availability_check_result, to_production, in_production, request_tee_attestation, sent,
}
use mindorr.Registration.Revert.{check_tx}
use mindorr.Registration.RegisterNode.{
  contains, tee_proxy_id, load_state, first_step, do_step, attest, check, checked, produced,
  later_steps, run_steps, register_node, Keys, SignedInfo,
}
use mindorr.Registration.Resume.Production.{GotThrough}
use mindorr.Registration.Ensures.{
  Ensures, next-Ensures, lift-Ensures, result-Ensures, map-Ensures, Gives, Gives-Ensures, Mined,
  sent-Ensures, check_tx-Ensures,
}

-- Of a case on a result that fails with its error.
cases-Ensures :
    {W A B : Type 0} (Q : B → W → Type 0) (f : A → Io W B) (r : Result A) (w : W)
    → ((a : A) → r ≡ ok a → Ensures Q (f a w))
    → Ensures Q (elim r [ err e ↦ (err e, w) | ok a ↦ f a w ])
cases-Ensures Q f (err e) w h = tt
cases-Ensures Q f (ok a) w h = h a refl

module _ {W Log : Type 0} (n : Node W Log) where
  -- `ToProduction` was mined, and the chain then knows the machine of the proof by its own id.
  pub record InProduction (proof : Proof) (w w2 : W) : Type 0 where
    pub mined : Mined n (n.to_production proof) w w2
    pub known : n.get_tee_machine proof.tee_id w2 ≡ ok proof.tee_id

  to_production-InProduction :
      (proof : Proof) (w : W) → Ensures (λ d w2. InProduction proof w w2) (to_production n proof w)
  unfolding to_production
  to_production-InProduction proof w =
      let Q = λ (d : Done) (w2 : W). InProduction proof w w2 in
      lift-Ensures Q _ n.transactor w λ _ _.
        let call = n.to_production proof w in
        next-Ensures (λ tx w1. call ≡ (returned tx, w1)) Q _ (sent n (λ e. e) call)
          (sent-Ensures n (λ e. e) call)
          λ tx w1 sends.
            next-Ensures _ Q _ (check_tx n tx w1) (check_tx-Ensures n tx w1)
              λ receipt w2 (mines, succeeds).
                result-Ensures Q (in_production n proof.tee_id (n.get_tee_machine proof.tee_id w2))
                  w2
                  (λ d h. record {
                    mined = record {
                      tx = tx;
                      between = w1;
                      receipt = receipt;
                      sends = sends;
                      mines = mines;
                      succeeds = succeeds;
                    };
                    known = in_production-eq-ok proof.tee_id (n.get_tee_machine proof.tee_id w2) h;
                  })
    where
      in_production-eq-ok :
          (id : Address) (r : Result Address) {d : Done} → in_production n id r ≡ ok d → r ≡ ok id
      in_production-eq-ok id (err e) h = cc
      in_production-eq-ok id (ok a) h = ap ok (ground (arith, h, same_hash_iff a id))

  module _ (path : String) (info : SignedInfo) (host_url ftdc_url : String) (ftdc_tee : Address)
      (command : String) (given_id : Hash) (keys : Keys) where
    -- The machine is in production: the run got through the steps before, the proof of the check's id
    -- was fetched and sent, the transaction was mined, and the state file was removed at the end.
    pub record IsProduced (w w' : W) : Type 0 where
      pub ids : Address × Address
      pub machine : tee_proxy_id keys info ≡ ok ids
      pub w3 : W
      pub through : GotThrough n path info host_url ftdc_url ftdc_tee command given_id keys ids w w3
      pub proof : Proof
      pub w4 : W
      pub proves : get_ftdc_availability_check_result n ftdc_url through.r3.1 w3 ≡ (ok proof, w4)
      pub w5 : W
      pub production : InProduction proof w4 w5
      pub removes : w' ≡ n.remove_state path w5

    produced-Ensures :
        (ids : Address × Address) (w w3 : W)
        → tee_proxy_id keys info ≡ ok ids
        → contains "p" command ≡ true
        → (got : GotThrough n path info host_url ftdc_url ftdc_tee command given_id keys ids w w3)
        → Ensures
            (λ d w'. IsProduced w (n.remove_state path w'))
            (produced n path command ftdc_url got.r3.1 w3)
    unfolding produced
    produced-Ensures ids w w3 machine asked got =
        let Q = λ (d : Done) (w' : W). IsProduced w (n.remove_state path w') in
        let fetch = get_ftdc_availability_check_result n ftdc_url got.r3.1 w3 in
        rw (produced, asked)
          (next-Ensures (Gives fetch) Q _ fetch (Gives-Ensures fetch) λ proof w4 proves.
            map-Ensures Q _ (to_production-InProduction proof w4) λ d w5 production. record {
              ids = ids;
              machine = machine;
              w3 = w3;
              through = got;
              proof = proof;
              w4 = w4;
              proves = proves;
              w5 = w5;
              production = production;
              removes = refl;
            })

    -- A registration whose command has the letter "p" and that succeeds has put the machine into
    -- production.
    pub register_node-IsProduced :
        (w : W)
        → contains "p" command ≡ true
        → Ensures
            (λ d w'. IsProduced w w')
            (register_node n path info host_url ftdc_url ftdc_tee command given_id keys w)
    unfolding register_node run_steps later_steps
    register_node-IsProduced w asked =
        let Q = λ (d : Done) (w' : W). IsProduced w w' in
        cases-Ensures Q
          (λ ids w. elim (load_state (n.read_state path w)) [
            | err e ↦ (err e, w)
            | ok st ↦ run_steps n path info host_url ftdc_url ftdc_tee command given_id ids st w
          ])
          (tee_proxy_id keys info) w
          λ ids machine.
            cases-Ensures Q (run_steps n path info host_url ftdc_url ftdc_tee command given_id ids)
              (load_state (n.read_state path w)) w
              λ st loads.
                let run1 =
                  first_step n path info host_url ftdc_url ftdc_tee command given_id ids st w in
                next-Ensures (Gives run1) Q _ run1 (Gives-Ensures run1) λ r1 w1 registers.
                  let run2 =
                    do_step n path attest command r1.0 r1.1 (request_tee_attestation n ids.0) w1 in
                  next-Ensures (Gives run2) Q _ run2 (Gives-Ensures run2) λ r2 w2 attests.
                    let run3 =
                      do_step n path check command r2.0 given_id
                        (checked n path ftdc_url ids.0 ftdc_tee r2.1) w2 in
                    next-Ensures (Gives run3) Q _ run3 (Gives-Ensures run3) λ r3 w3 checks.
                      next-Ensures (λ d w'. IsProduced w (n.remove_state path w')) Q _ _
                        (produced-Ensures ids w w3 machine asked (record {
                          st = st;
                          r1 = r1;
                          r2 = r2;
                          r3 = r3;
                          w1 = w1;
                          w2 = w2;
                          loads = loads;
                          registers = registers;
                          attests = attests;
                          checks = checks;
                        }))
                        λ d w' h. h
