-- ===== src/RunTest/Signed.antt =====
-- The checks of an allocation that was answered, and of the delivered key.
use mindorr.Prelude.{ℕ, ◌≡◌, true, Option, none, some, String, ok, List, arith}
use mindorr.Text.Search.{equal_fold}
use mindorr.Wire.{Hash, same_hash_iff}
use mindorr.Checks.Deploy.{Address}
use mindorr.Registration.{Done}
use mindorr.Registration.Ensures.{then_do-eq-ok, worded-eq-ok}
use mindorr.Registration.Setup.{worded}
use mindorr.RunTest.Digest.{normalize_v, hex_to_bytes}
use mindorr.RunTest.{Tools, AllocateResponse, want_digest, hash_hex, verified}
use mindorr.RunTest.Expected.{loaded, same_signer, signature_bytes, same_digest}

module _ {W : Type 0} (t : Tools W) where
  -- The answer of an allocation carries the digest that the program computes, up to the case of its
  -- letters, and a signature of that digest from which the address `wallet` is recovered.
  pub record IsSigned (wallet : Address) (amount : String) (answer : AllocateResponse)
      : Type 0 where
    pub want : Hash
    pub computed : want_digest t amount ≡ ok want
    pub same : equal_fold t.fold answer.digest (hash_hex want) ≡ true
    pub sig : List ℕ
    pub decoded : hex_to_bytes answer.signature ≡ some sig
    pub signer : t.PublicKey
    pub recovered : t.sig_to_pub want (normalize_v sig) ≡ ok signer
    pub address : t.pubkey_to_address signer ≡ wallet

  same_digest-eq-ok :
      (want : Hash) (digest : String) {d : Done}
      → same_digest t want digest ≡ ok d
      → equal_fold t.fold digest (hash_hex want) ≡ true
  same_digest-eq-ok want digest h = ground (arith, h)

  signature_bytes-eq-ok :
      (o : Option (List ℕ)) {sig : List ℕ} → signature_bytes t o ≡ ok sig → o ≡ some sig
  signature_bytes-eq-ok none h = cc
  signature_bytes-eq-ok (some s) h = cc

  same_signer-eq-ok :
      (wallet signer : Address) {d : Done} → same_signer t wallet signer ≡ ok d → signer ≡ wallet
  same_signer-eq-ok wallet signer h = ground (arith, h, same_hash_iff signer wallet)

  pub verified-IsSigned :
      (wallet : Address) (amount : String) (answer : AllocateResponse) (d : Done)
      → verified t wallet amount answer ≡ ok d
      → IsSigned wallet amount answer
  unfolding verified
  verified-IsSigned wallet amount answer d h =
      let (want, computed, h1) = then_do-eq-ok (want_digest t amount) _ h in
      let (_, same, h2) = then_do-eq-ok (same_digest t want answer.digest) _ h1 in
      let (sig, decoded, h3) =
        then_do-eq-ok (signature_bytes t (hex_to_bytes answer.signature)) _ h2 in
      let (signer, recovered, h4) =
        then_do-eq-ok (worded "ecrecover: " (t.sig_to_pub want (normalize_v sig))) _ h3 in
      record {
        want = want;
        computed = computed;
        same = same_digest-eq-ok want answer.digest same;
        sig = sig;
        decoded = signature_bytes-eq-ok (hex_to_bytes answer.signature) decoded;
        signer = signer;
        recovered = worded-eq-ok _ (t.sig_to_pub want (normalize_v sig)) recovered;
        address = same_signer-eq-ok wallet (t.pubkey_to_address signer) h4;
      }

  pub loaded-eq-ok :
      (wallet : Address) (text : String) {a : Address}
      → loaded t wallet text ≡ ok a
      → equal_fold t.fold text (t.address_hex a) ≡ true
  loaded-eq-ok wallet text h = ground (arith, h)

  pub loaded-of :
      (wallet : Address) (text : String) {a : Address} → loaded t wallet text ≡ ok a → a ≡ wallet
  loaded-of wallet text h = ground (arith, h)
