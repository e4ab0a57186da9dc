-- ===== src/RunTest/Delivered.antt =====
-- The sending of an instruction and its answer, and the delivery of the managed key.
use mindorr.Prelude.{ℕ, ◌≡◌, Bool, true, false, String, Result, ok, List}
use mindorr.Text.Search.{equal_fold}
use mindorr.Wire.{Hash}
use mindorr.Checks.Deploy.{Address}
use mindorr.LiveServer.Proxy.{ActionResult}
use mindorr.Registration.{Io, Node}
use mindorr.Registration.Requests.{action_result}
use mindorr.Registration.Ensures.{
  worded-eq-ok, Ensures, next-Ensures, Gives, Gives-Ensures, lift-Ensures, worded_io-Ensures,
  result-Ensures,
}
use mindorr.Registration.Setup.{worded}
use mindorr.Instructions.{send_update_key, SenderContract}
use mindorr.RunTest.{Tools, deliver_key, finish_result, send_and_decode, finished}
use mindorr.RunTest.Expected.{key_bytes, loaded}
use mindorr.RunTest.Signed.{loaded-eq-ok, loaded-of}

module _ {W Log : Type 0} (n : Node W Log) (c : SenderContract W) (t : Tools W) (proxy : String)
    (sender : Address) where
  -- An instruction is sent from `w`, and `a` is what the result of it makes, six seconds later.
  pub record IsAnswered {A : Type 0} (label : String) (payload : List ℕ)
      (send : Address → List ℕ → Io W (Hash × Hash)) (out : A) (decode : List ℕ → Result A)
      (expect_refusal : Bool) (w : W) (a : A) (w' : W) : Type 0 where
    pub ids : Hash × Hash
    pub sent : W
    pub sends : send sender payload w ≡ (ok ids, sent)
    pub result : ActionResult
    pub answers : action_result n proxy ids.0 (n.sleep 6 sent) ≡ (ok result, w')
    pub finishes : finished label out decode expect_refusal result ≡ ok a

  pub send_and_decode-IsAnswered :
      {A : Type 0} (label : String) (payload : List ℕ)
      (send : Address → List ℕ → Io W (Hash × Hash)) (out : A) (decode : List ℕ → Result A)
      (expect_refusal : Bool) (w : W)
      → Ensures
          (IsAnswered label payload send out decode expect_refusal w)
          (send_and_decode n c t proxy sender label payload send out decode expect_refusal w)
  unfolding send_and_decode finish_result
  send_and_decode-IsAnswered label payload send out decode expect_refusal w =
      let Q = IsAnswered label payload send out decode expect_refusal w in
      next-Ensures (Gives (send sender payload w)) Q _ _
        (worded_io-Ensures (Gives (send sender payload w)) _ (send sender payload w)
          (Gives-Ensures (send sender payload w)))
        λ ids sent sends.
          let asked = action_result n proxy ids.0 (n.sleep 6 sent) in
          next-Ensures (Gives asked) Q _ _
            (worded_io-Ensures (Gives asked) _ asked (Gives-Ensures asked))
            λ result w' answers.
              result-Ensures Q (finished label out decode expect_refusal result) w' (λ a h. record {
                ids = ids;
                sent = sent;
                sends = sends;
                result = result;
                answers = answers;
                finishes = h;
              })

  -- The managed key, encrypted for the key in the info of the machine, was sent, each step from where
  -- the one before it ended, and the enclave answered with the address of that key's wallet.
  pub record HoldsKey (w : W) (managed_wallet : Address) (w' : W) : Type 0 where
    pub bytes : List ℕ
    pub managed : key_bytes ≡ ok bytes
    pub key : t.PrivateKey
    pub parses : t.to_ecdsa bytes ≡ ok key
    pub info : List ℕ
    pub told : W
    pub tells : t.tee_info proxy w ≡ (ok info, told)
    pub tee_key : t.PublicKey
    pub public : t.parse_pub_key info ≡ ok tee_key
    pub ciphertext : List ℕ
    pub before : W
    pub seals : t.encrypt tee_key bytes told ≡ (ok ciphertext, before)
    pub wallet : String
    pub answered :
        IsAnswered "UPDATE_KEY" ciphertext
          (send_update_key n c)
          ""
          t.decode_update_key
          false
          before
          wallet
          w'
    pub of_key : managed_wallet ≡ t.pubkey_to_address (t.public_key key)
    pub same : equal_fold t.fold wallet (t.address_hex managed_wallet) ≡ true

  pub deliver_key-HoldsKey : (w : W) → Ensures (HoldsKey w) (deliver_key n c t proxy sender w)
  unfolding deliver_key
  deliver_key-HoldsKey w =
      let Q = HoldsKey w in
      lift-Ensures Q _ key_bytes w λ bytes managed.
        lift-Ensures Q _ (worded "bad managed key: " (t.to_ecdsa bytes)) w λ key parses.
          let asked = t.tee_info proxy w in
          next-Ensures (Gives asked) Q _ _
            (worded_io-Ensures (Gives asked) "fetch TEE info: " asked (Gives-Ensures asked))
            λ info w1 tells.
              lift-Ensures Q _ (worded "parse TEE pubkey: " (t.parse_pub_key info)) w1
                λ tee_key public.
                  let sealing = t.encrypt tee_key bytes w1 in
                  next-Ensures (Gives sealing) Q _ _
                    (worded_io-Ensures (Gives sealing) "ECIES encrypt: " sealing
                      (Gives-Ensures sealing))
                    λ sealed w2 seals.
                      next-Ensures _ Q _ _
                        (send_and_decode-IsAnswered "UPDATE_KEY" sealed (send_update_key n c) ""
                          t.decode_update_key false w2)
                        λ wallet w3 answered.
                          let wanted = t.pubkey_to_address (t.public_key key) in
                          result-Ensures Q (loaded t wanted wallet) w3 (λ a h. record {
                            bytes = bytes;
                            managed = managed;
                            key = key;
                            parses = worded-eq-ok "bad managed key: " (t.to_ecdsa bytes) parses;
                            info = info;
                            told = w1;
                            tells = tells;
                            tee_key = tee_key;
                            public =
                                worded-eq-ok "parse TEE pubkey: " (t.parse_pub_key info) public;
                            ciphertext = sealed;
                            before = w2;
                            seals = seals;
                            wallet = wallet;
                            answered = answered;
                            of_key = loaded-of t wanted wallet h;
                            same = loaded-eq-ok t wanted wallet h;
                          })
