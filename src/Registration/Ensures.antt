-- ===== src/Registration/Ensures.antt =====
-- What holds of the value and the world that a run gives, if it does not fail.
use mindorr.Prelude.{
  arith, inr, inl, eqb, Bool-cases, ◌≢◌, ◌≡◌, refl, subst, Result, ok, err, String,
}
use mindorr.Registration.{
  done, Done, reverted, returned, Receipt, Called, Node, then_do, Io, next, lift,
}
use mindorr.Registration.Setup.{worded, worded_io}
use mindorr.Wire.{Hash}
use mindorr.Registration.Revert.{mining_error, check_tx}
use mindorr.Registration.Requests.{sent}

abbrev pub Ensures : {W A : Type 0} → (A → W → Type 0) → Result A × W → Type 0
Ensures Q (err e, w) = Unit
Ensures Q (ok a, w) = Q a w

-- Of two steps, by what the first ensures.
pub next-Ensures :
    {W A B : Type 0} (P : A → W → Type 0) (Q : B → W → Type 0) (f : A → Io W B) (r : Result A × W)
    → Ensures P r
    → ((a : A) (w : W) → P a w → Ensures Q (f a w))
    → Ensures Q (next f r)
next-Ensures P Q f (err e, w) h goes = tt
next-Ensures P Q f (ok a, w) h goes = goes a w h

-- A run ensures that it is the run that it is.
abbrev pub Gives : {W A : Type 0} → Result A × W → A → W → Type 0
Gives r a w = r ≡ (ok a, w)

pub Gives-Ensures : {W A : Type 0} (r : Result A × W) → Ensures (Gives r) r
Gives-Ensures (err e, w) = tt
Gives-Ensures (ok a, w) = refl

pub map-Ensures :
    {W A : Type 0} {P : A → W → Type 0} (Q : A → W → Type 0) (r : Result A × W)
    → Ensures P r
    → ((a : A) (w : W) → P a w → Q a w)
    → Ensures Q r
map-Ensures Q (err e, w) h goes = tt
map-Ensures Q (ok a, w) h goes = goes a w h

-- A step of which nothing needs to be known.
pub any-Ensures :
    {W A B : Type 0} (Q : B → W → Type 0) (f : A → Io W B) (r : Result A × W)
    → ((a : A) (w : W) → Ensures Q (f a w))
    → Ensures Q (next f r)
any-Ensures Q f (err e, w) goes = tt
any-Ensures Q f (ok a, w) goes = goes a w

pub result-Ensures :
    {W A : Type 0} (Q : A → W → Type 0) (r : Result A) (w : W)
    → ((a : A) → r ≡ ok a → Q a w)
    → Ensures Q (r, w)
result-Ensures Q (err e) w h = tt
result-Ensures Q (ok a) w h = h a refl

-- A pure step in front leaves the world as it is.
pub lift-Ensures :
    {W A B : Type 0} (Q : B → W → Type 0) (f : A → Io W B) (r : Result A) (w : W)
    → ((a : A) → r ≡ ok a → Ensures Q (f a w))
    → Ensures Q (next f (lift r w))
lift-Ensures Q f (err e) w h = tt
lift-Ensures Q f (ok a) w h = h a refl

pub worded_io-Ensures :
    {W A : Type 0} (P : A → W → Type 0) (text : String) (r : Result A × W)
    → Ensures P r
    → Ensures P (worded_io text r)
worded_io-Ensures P text (err e, w) h = tt
worded_io-Ensures P text (ok a, w) h = h

-- Both steps of a chain that succeeds have succeeded.
pub then_do-eq-ok :
    {A B : Type 0} (r : Result A) (f : A → Result B) {b : B}
    → then_do r f ≡ ok b
    → (a : A) × (r ≡ ok a) × (f a ≡ ok b)
then_do-eq-ok (ok a) f h = (a, refl, h)
then_do-eq-ok (err e) f h = cc

pub worded-eq-ok :
    {A : Type 0} (text : String) (r : Result A) {a : A} → worded text r ≡ ok a → r ≡ ok a
worded-eq-ok text (ok b) h = h
worded-eq-ok text (err e) h = cc

pub only_done : (d : Done) → d ≡ done
only_done done = refl

-- What is ensured holds of what a run gave.
pub of_Ensures :
    {W A : Type 0} (P : A → W → Type 0) {r : Result A × W} {a : A} {w : W}
    → Ensures P r
    → r ≡ (ok a, w)
    → P a w
of_Ensures P h e = subst (Ensures P) e h

module _ {W Log : Type 0} (n : Node W Log) where
  -- A transaction that is sent from `w` and mined without a failure leads to `w2`.
  pub record Mined (call : W → Called Hash × W) (w w2 : W) : Type 0 where
    pub tx : Hash
    pub between : W
    pub receipt : Receipt Log
    pub sends : call w ≡ (returned tx, between)
    pub mines : n.wait_mined tx between ≡ (ok receipt, w2)
    pub succeeds : receipt.status ≢ 0

  pub sent-Ensures :
      (text : String → String) (r : Called Hash × W)
      → Ensures (λ tx w1. r ≡ (returned tx, w1)) (sent n text r)
  sent-Ensures text (returned tx, w1) = refl
  sent-Ensures text (reverted e, w1) = tt

  checked_answer :
      (tx : Hash) (r : Result (Receipt Log) × W)
      → Ensures (λ receipt w2. (r ≡ (ok receipt, w2)) × (receipt.status ≢ 0)) (mining_error n tx r)
  checked_answer tx (err e, w) = tt
  checked_answer tx (ok receipt, w) = elim (Bool-cases (eqb receipt.status 0)) [
    | inl failed ↦ rw failed tt
    | inr good ↦ rw good (refl, ground (arith, good))
  ]

  -- A receipt that `CheckTx` gives is the one of a transaction that has not failed.
  pub check_tx-Ensures :
      (tx : Hash) (w : W)
      → Ensures
          (λ receipt w2. (n.wait_mined tx w ≡ (ok receipt, w2)) × (receipt.status ≢ 0))
          (check_tx n tx w)
  unfolding check_tx
  check_tx-Ensures tx w = checked_answer tx (n.wait_mined tx w)
