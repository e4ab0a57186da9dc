-- ===== src/Instructions/Sending.antt =====
-- What an instruction that is sent stands for on the chain.
use mindorr.Prelude.{
  Result-cases, ℕ, ◌≡◌, refl, String, List, ok, [], ◌∷◌, Bool-cases, inl, inr, eqb, eqb_iff,
}
use mindorr.Registration.{Called, returned, reverted, Receipt, Node}
use mindorr.Registration.Ensures.{
  Gives, Ensures, next-Ensures, Gives-Ensures, lift-Ensures, worded_io-Ensures, of_Ensures,
}
use mindorr.Checks.Deploy.{Address}
use mindorr.Wire.{Hash}
use mindorr.Instructions.{
  simulated_call, worded, first_instruction, SenderContract, send_bytes_op, instruction_fee,
  or_refused, sent_on,
}

module _ {W Log : Type 0} (n : Node W Log) (c : SenderContract W) where
  -- A transaction that is sent from `w`, and mined with status 1 in `w2`.
  pub record Accepted (call : W → Called Hash × W) (tx : Hash) (logs : List Log) (w w2 : W)
      : Type 0 where
    pub between : W
    pub receipt : Receipt Log
    pub sends : call w ≡ (returned tx, between)
    pub mines : n.wait_mined tx between ≡ (ok receipt, w2)
    pub accepts : receipt.status ≡ 1
    pub logged : receipt.logs ≡ logs

  -- The instruction's id is the one of the first event.
  pub record IsSent (call : W → Called Hash × W) (w : W) (ids : Hash × Hash) (w2 : W) : Type 0 where
    pub first : Log
    pub more : List Log
    pub accepted : Accepted call ids.1 (first ∷ more) w w2
    pub identified : n.parse_instructions_sent first ≡ ok ids.0

  or_refused-Ensures :
      (text : String) (simulate : W → String) (r : Called Hash × W)
      → Ensures (λ tx w. r ≡ (returned tx, w)) (or_refused n c text simulate r)
  or_refused-Ensures text simulate (returned tx, w) = refl
  or_refused-Ensures text simulate (reverted e, w) = tt

  module _ (call : W → Called Hash × W) (w : W) (name : String) (simulate : W → String) (tx : Hash)
      (w1 w2 : W) (sends : call w ≡ (returned tx, w1)) where
    first-IsSent :
        (receipt : Receipt Log)
        → n.wait_mined tx w1 ≡ (ok receipt, w2)
        → receipt.status ≡ 1
        → (logs : List Log) → receipt.logs ≡ logs
        → Ensures (IsSent call w) (first_instruction n c tx logs, w2)
    first-IsSent receipt mines status [] e = tt
    first-IsSent receipt mines status (first ∷ more) e =
        elim (Result-cases (n.parse_instructions_sent first)) [
          | inr (text, p) ↦ rw (Ensures, p) tt
          | inl (id, p) ↦
              rw (Ensures, p)
                (record {
                  first = first;
                  more = more;
                  accepted = record {
                    between = w1;
                    receipt = receipt;
                    sends = sends;
                    mines = mines;
                    accepts = status;
                    logged = e;
                  };
                  identified = p;
                })
        ]

    sent_on-IsSent :
        (receipt : Receipt Log)
        → n.wait_mined tx w1 ≡ (ok receipt, w2)
        → Ensures (IsSent call w) (sent_on n c name simulate tx receipt w2)
    sent_on-IsSent receipt mines = elim (Bool-cases (eqb receipt.status 1)) [
      | inl good ↦ rw good (first-IsSent receipt mines ((eqb_iff _ _).0 good) receipt.logs refl)
      | inr bad ↦ rw bad tt
    ]

  -- An instruction that is sent without an error is a call of the given method with the fee, which is
  -- mined with status 1, and its id is the one of the first event of the receipt.
  pub send_bytes_op-IsSent :
      (address : Address) (name : String) (message : List ℕ)
      (call : Address → ℕ → List ℕ → W → Called Hash × W) (w w' : W) (ids : Hash × Hash)
      → send_bytes_op n c address name message call w ≡ (ok ids, w')
      → IsSent (call address instruction_fee message) w ids w'
  unfolding send_bytes_op
  send_bytes_op-IsSent address name message call w w' ids h =
      let sends = call address instruction_fee message in
      let Q = IsSent sends w in
      of_Ensures Q
        (lift-Ensures Q _ (worded "failed to bind contract: " (c.bind address)) w λ _ _.
          lift-Ensures Q _ (worded "failed to create transactor: " n.transactor) w λ _ _.
            next-Ensures (λ tx w3. sends w ≡ (returned tx, w3)) Q _ _
              (or_refused-Ensures _ _ (sends w))
              λ tx w3 e3.
                next-Ensures (Gives (n.wait_mined tx w3)) Q _ _
                  (worded_io-Ensures (Gives (n.wait_mined tx w3)) _ (n.wait_mined tx w3)
                    (Gives-Ensures (n.wait_mined tx w3)))
                  λ receipt w4 e4.
                    sent_on-IsSent sends w name
                      (simulated_call n c (c.pack address name instruction_fee (message ∷ []))) tx
                      w3 w4 e3 receipt e4)
        h
