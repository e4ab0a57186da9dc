-- ===== src/RunTest/Verified.antt =====
-- What a test run that ends without an error has shown.
use mindorr.Prelude.{ap, ◌∙◌, subst, ℕ, ◌≡◌, true, false, String, ok, List, arith}
use mindorr.Checks.Deploy.{Address}
use mindorr.LiveServer.Proxy.{ActionResult}
use mindorr.Registration.{lift, Done, done, Node}
use mindorr.Registration.Ensures.{
  only_done, of_Ensures, map-Ensures, Ensures, next-Ensures, Gives, Gives-Ensures, lift-Ensures,
}
use mindorr.Instructions.{SenderContract, send_allocate}
use mindorr.RunTest.{
  send_policy, bind_extension, run_test, Tools, AllocateResponse, Run, allocation, attacker_venue,
  allocate_allowed, allocate_malicious, deliver_key, verified, finished,
}
use mindorr.RunTest.Expected.{unset, allowed_venue}
use mindorr.RunTest.Signed.{verified-IsSigned, IsSigned}
use mindorr.RunTest.Delivered.{
  IsAnswered, send_and_decode-IsAnswered, HoldsKey, deliver_key-HoldsKey,
}

module _ {W Log : Type 0} (n : Node W Log) (c : SenderContract W) (t : Tools W) (proxy : String)
    (sender : Address) where
  -- The allocation to the allowed venue was sent, and the enclave's answer is signed with the key of
  -- the wallet.
  pub record IsAllocated (wallet : Address) (amount : String) (w : W) (answer : AllocateResponse)
      (w' : W) : Type 0 where
    pub payload : List ℕ
    pub marshals : t.marshal_allocate (allocation amount allowed_venue) ≡ ok payload
    pub answered :
        IsAnswered n c t proxy sender "ALLOCATE" payload
          (send_allocate n c)
          (record { digest = ""; signature = "" })
          t.decode_allocate
          false
          w
          answer
          w'
    pub signed : IsSigned t wallet amount answer

  allocate_allowed-IsAllocated :
      (wallet : Address) (amount : String) (w : W)
      → Ensures (IsAllocated wallet amount w) (allocate_allowed n c t proxy sender wallet amount w)
  unfolding allocate_allowed
  allocate_allowed-IsAllocated wallet amount w =
      let Q = IsAllocated wallet amount w in
      lift-Ensures Q _ (t.marshal_allocate (allocation amount allowed_venue)) w λ payload marshals.
        next-Ensures _ Q _ _
          (send_and_decode-IsAnswered n c t proxy sender "ALLOCATE" payload (send_allocate n c)
            (record { digest = ""; signature = "" }) t.decode_allocate false w)
          λ answer w1 answered.
            lift-Ensures Q (λ d. lift (ok answer)) (verified t wallet amount answer) w1
              λ d h. record {
                payload = payload;
                marshals = marshals;
                answered = answered;
                signed = verified-IsSigned t wallet amount answer d h;
              }

  -- The allocation to the attacker's venue was sent, and its result has the status 0.
  abbrev pub IsRefused : String → W → Done → W → Type 0
  IsRefused amount w d w' =
      (payload : List ℕ) × (t.marshal_allocate (allocation amount attacker_venue) ≡ ok payload)
      × (a : IsAnswered n c t proxy sender "ALLOCATE(malicious)" payload (send_allocate n c) done
          (λ _. ok done) true w d w')
      × (a.result.status ≡ 0)

  finished-refusal :
      (label : String) (res : ActionResult) {d : Done}
      → finished label done (λ _. ok done) true res ≡ ok d
      → res.status ≡ 0
  unfolding finished
  finished-refusal label res h = ground (arith, h)

  allocate_malicious-IsRefused :
      (amount : String) (w : W)
      → Ensures (IsRefused amount w) (allocate_malicious n c t proxy sender amount w)
  unfolding allocate_malicious
  allocate_malicious-IsRefused amount w =
      lift-Ensures (IsRefused amount w) _ (t.marshal_allocate (allocation amount attacker_venue)) w
        λ payload h.
          map-Ensures (IsRefused amount w) _
            (send_and_decode-IsAnswered n c t proxy sender "ALLOCATE(malicious)" payload
              (send_allocate n c) done (λ _. ok done) true w)
            (λ d w' a. (payload, h, a, finished-refusal _ a.result a.finishes))

  -- What a run has shown, one step from where the other ended: the policy was sent, the enclave says
  -- that it holds the managed wallet, it signed the allocation with its key, and it refused the
  -- allocation to the attacker's venue.
  pub record IsVerified (amount : String) (w : W) (run : Run) (w' : W) : Type 0 where
    pub bound : W
    pub binds : bind_extension n c t proxy sender w ≡ (ok done, bound)
    pub governed : W
    pub sets : send_policy n c t proxy sender bound ≡ (ok run.policy_set, governed)
    pub delivered : W
    pub holds_key : HoldsKey n c t proxy sender governed run.managed_wallet delivered
    pub allocated : W
    pub signed : IsAllocated run.managed_wallet amount delivered run.answer allocated
    pub refused : IsRefused amount allocated done w'

  -- A test run that ends without an error has done these steps, each from where the one before it
  -- ended: it has bound the extension and sent the policy; it has encrypted the managed key for the key
  -- in the machine's info and sent it, and was answered with the address of that key; it has sent the
  -- allocation to the allowed venue, whose answer carries the computed digest and a signature of it
  -- from which that address is recovered; and it has sent the allocation to the attacker's venue, which
  -- was answered with status 0. The amount is the default where none is set.
  pub run_test-IsVerified :
      (amount : String) (w w' : W) (run : Run)
      → run_test n c t proxy sender amount w ≡ (ok run, w')
      → IsVerified (unset amount) w run w'
  unfolding run_test
  run_test-IsVerified amount w w' run h =
      let Q = IsVerified (unset amount) w in
      let binding = bind_extension n c t proxy sender w in
      of_Ensures Q
        (next-Ensures (Gives binding) Q _ binding (Gives-Ensures binding) λ b w1 binds.
          let setting = send_policy n c t proxy sender w1 in
          next-Ensures (Gives setting) Q _ setting (Gives-Ensures setting) λ policy w2 sets.
            next-Ensures (HoldsKey n c t proxy sender w2) Q _ (deliver_key n c t proxy sender w2)
              (deliver_key-HoldsKey n c t proxy sender w2)
              λ wallet w3 holds.
                next-Ensures (IsAllocated wallet (unset amount) w3) Q _
                  (allocate_allowed n c t proxy sender wallet (unset amount) w3)
                  (allocate_allowed-IsAllocated wallet (unset amount) w3)
                  λ answer w4 signed.
                    next-Ensures (IsRefused (unset amount) w4) Q _
                      (allocate_malicious n c t proxy sender (unset amount) w4)
                      (allocate_malicious-IsRefused (unset amount) w4)
                      λ d w5 refused. record {
                        bound = w1;
                        binds = binds ∙ ap (λ d. (ok d, w1)) (only_done b);
                        governed = w2;
                        sets = sets;
                        delivered = w3;
                        holds_key = holds;
                        allocated = w4;
                        signed = signed;
                        refused =
                            subst (λ d. IsRefused (unset amount) w4 d w5) (only_done d) refused;
                      })
        h
