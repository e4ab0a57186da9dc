-- ===== src/Registration/Outcomes.antt =====
-- What a transaction that is accepted, and a machine that is put into production, stand for.
use mindorr.Registration.Requests.{sent, in_production, to_production}
use mindorr.Registration.{lift, Done, next, Io, done}
use mindorr.Prelude.{
  String, Result, ◌≡◌, refl, ok, err, arith, Bool-cases, inl, inr, ap, subst, ◌∙◌, ◌≢◌, ◌↔◌,
}
use mindorr.Registration.{done, Proof, Receipt, Node}
use mindorr.Wire.{same_hash_iff, same_hash, Hash}
use mindorr.Registration.Revert.{mining_error, check_tx}
use mindorr.Checks.Deploy.{Address}

-- What holds of every error, and of what each value leads to, holds of the two steps together.
pub next_elim :
    {W A B : Type 0} (Q : Result B × W → Type 0) (f : A → Io W B)
    → ((e : String) (w : W) → Q (err e, w))
    → ((a : A) (w : W) → Q (f a w))
    → (r : Result A × W) → Q (next f r)
next_elim Q f fails goes (err e, w) = fails e w
next_elim Q f fails goes (ok a, w) = goes a w

module _ {W Log : Type 0} (n : Node W Log) where
  accepted :
      (tx : Hash) (answer : Result (Receipt Log) × W) (receipt : Receipt Log)
      → (mining_error n tx answer).0 ≡ ok receipt
      → (answer.0 ≡ ok receipt) × (receipt.status ≢ 0)
  accepted tx (err e, w) receipt h = ground (arith, h)
  accepted tx (ok mined, w) receipt h = ground (arith, h)

  accepted_back :
      (tx : Hash) (answer : Result (Receipt Log) × W) (receipt : Receipt Log)
      → (answer.0 ≡ ok receipt) × (receipt.status ≢ 0)
      → (mining_error n tx answer).0 ≡ ok receipt
  accepted_back tx (err e, w) receipt h = ground (arith, h)
  accepted_back tx (ok mined, w) receipt h = ground (arith, h)

  -- `CheckTx` gives a receipt exactly if the transaction is mined with that receipt and its status is
  -- not 0.
  pub check_tx_iff :
      (tx : Hash) (w : W) (receipt : Receipt Log)
      → ((check_tx n tx w).0 ≡ ok receipt)
        ↔ (((n.wait_mined tx w).0 ≡ ok receipt) × (receipt.status ≢ 0))
  unfolding check_tx
  check_tx_iff tx w receipt =
      (accepted tx (n.wait_mined tx w) receipt, accepted_back tx (n.wait_mined tx w) receipt)

  abbrev IsKnown : Address → Result Done × W → Type 0
  IsKnown tee_id (err e, w) = Unit
  IsKnown tee_id (ok d, w) = n.get_tee_machine tee_id w ≡ ok tee_id

  answer-IsKnown :
      (tee_id : Address) (answer : Result Address) (w : W)
      → n.get_tee_machine tee_id w ≡ answer
      → IsKnown tee_id (in_production n tee_id answer, w)
  answer-IsKnown tee_id (err e) w h = tt
  answer-IsKnown tee_id (ok registered) w h = elim (Bool-cases (same_hash registered tee_id)) [
    | inl same ↦ rw same (h ∙ ap ok ((same_hash_iff registered tee_id).0 same))
    | inr differs ↦ rw differs tt
  ]

  -- Putting a machine into production succeeds only if the registry then knows the machine of the
  -- proof under its own id.
  pub to_production-registered :
      (proof : Proof) (w w' : W)
      → to_production n proof w ≡ (ok done, w')
      → n.get_tee_machine proof.tee_id w' ≡ ok proof.tee_id
  unfolding to_production
  to_production-registered proof w w' h =
      let Q = IsKnown proof.tee_id in
      let fails : (e : String) (w : W) → Q (err e, w) = λ e w. tt in
      subst Q h (
        next_elim Q _ fails
          (λ _ w1.
            next_elim Q _ fails
              (λ tx w2.
                next_elim Q _ fails
                  (λ receipt w3.
                    answer-IsKnown proof.tee_id (n.get_tee_machine proof.tee_id w3) w3 refl)
                  (check_tx n tx w2))
              (sent n (λ e. e) (n.to_production proof w1)))
          (lift n.transactor w))
