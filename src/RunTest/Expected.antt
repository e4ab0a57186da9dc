-- ===== src/RunTest/Expected.antt =====
-- What extension/tools/cmd/run-test/main.go sends and what it expects of the answers. An error of
-- `encoding/hex` has no text of its own here.
use mindorr.Prelude.{
  length, not, eqb, concat, if◌then◌else◌, Bool, true, false, Option, none, some, String, Result,
  ok, err, List, ℕ, [], ◌∷◌,
}
use mindorr.Text.{is_empty}
use mindorr.Text.Hex.{decode_hex, encode_hex}
use mindorr.Text.Decimal.{decimal}
use mindorr.Text.Search.{equal_fold, contains_text}
use mindorr.Wire.{Hash, same_hash}
use mindorr.Checks.Deploy.{Address}
use mindorr.LiveServer.Proxy.{ActionResult}
use mindorr.Registration.{then_do, Done, done}
use mindorr.Registration.Setup.{worded}
use mindorr.RunTest.Types.{Tools, AllocateResponse, AllocatePayload}
use mindorr.RunTest.Digest.{action_digest, set_string, normalize_v, hex_to_bytes}

abbrev pub fxrp : String
fxrp = "0x0b6A3645c240605887a5532109323A3E12273dc7"

abbrev pub allowed_venue : String
allowed_venue = "0xa11a000100000000000000000000000000000000"

abbrev pub attacker_venue : String
attacker_venue = "0xdead00000000000000000000000000000000beef"

abbrev pub managed_key_hex : String
managed_key_hex = "b71c71a67e1177ad4e901695e1b4b9ee17ae16c6668d313eac2f96dbcda3f291"

unfoldable pub key_bytes : Result (List ℕ)
unfolding decode_hex
key_bytes = elim (decode_hex managed_key_hex) [ none ↦ err "bad key hex" | some bytes ↦ ok bytes ]

-- `common.Hash.Hex`.
abbrev pub hash_hex : Hash → String
hash_hex h = concat ("0x" ∷ encode_hex h ∷ [])

-- What `finishResult` makes of a result: nothing more of a refusal that is expected.
unfoldable pub finished :
    {A : Type 0} → String → A → (List ℕ → Result A) → Bool → ActionResult → Result A
finished label out decode true res =
    if not (eqb res.status 0)
    then err (concat (label ∷ " should have been REFUSED but status=" ∷ decimal res.status ∷ []))
    else ok out
finished label out decode false res =
    if eqb res.status 0
    then err (concat (label ∷ " failed/refused: " ∷ res.log ∷ []))
    else if eqb res.status 2
    then err (concat (label ∷ " still pending after polling" ∷ []))
    else if eqb (length res.result_data) 0
    then err (concat (label ∷ " returned no data" ∷ []))
    else worded (concat (label ∷ " decode: " ∷ [])) (decode res.result_data)

abbrev pub continues : Result Done → Result Done
continues (ok d) = ok d
continues (err e) =
    if contains_text e "already set"
    then ok done
    else err (concat ("setExtensionId failed (registered via pre-build.sh?): " ∷ e ∷ []))

abbrev pub unset : String → String
unset amount = if is_empty amount then "5000000000" else amount

abbrev pub allocation : String → String → AllocatePayload
allocation amount venue = record {
  asset = fxrp;
  amount = amount;
  venue = venue;
  portfolio_value = amount;
  venue_balance = "0";
}

module _ {W : Type 0} (t : Tools W) where
  abbrev pub loaded : Address → String → Result Address
  loaded managed_wallet wallet =
      if not (equal_fold t.fold wallet (t.address_hex managed_wallet))
      then err (
          concat (
            "enclave loaded "
            ∷ wallet
            ∷ ", expected managed wallet "
            ∷ t.address_hex managed_wallet
            ∷ []))
      else ok managed_wallet

  -- The digest of an allocation to the allowed venue; there is none for an amount that is no number,
  -- on which the program panics.
  abbrev pub want_digest : String → Result Hash
  want_digest alloc_amount = elim (set_string alloc_amount) [
    | none ↦ err "invalid memory address or nil pointer dereference"
    | some amount ↦
        ok (
          action_digest t.padding 1 (t.hex_to_address fxrp) amount (t.hex_to_address allowed_venue))
  ]

  abbrev pub same_digest : Hash → String → Result Done
  same_digest want digest =
      if not (equal_fold t.fold digest (hash_hex want))
      then err
          (concat ("digest mismatch: enclave " ∷ digest ∷ " vs computed " ∷ hash_hex want ∷ []))
      else ok done

  abbrev pub signature_bytes : Option (List ℕ) → Result (List ℕ)
  signature_bytes none = err "bad signature hex"
  signature_bytes (some sig) = ok sig

  abbrev pub same_signer : Address → Address → Result Done
  same_signer managed_wallet signer =
      if not (same_hash signer managed_wallet)
      then err (
          concat (
            "recovered "
            ∷ t.address_hex signer
            ∷ " != managed wallet "
            ∷ t.address_hex managed_wallet
            ∷ []))
      else ok done

  -- The checks of an allocation that was answered.
  unfoldable pub verified : Address → String → AllocateResponse → Result Done
  unfolding equal_fold action_digest set_string hex_to_bytes
  verified managed_wallet alloc_amount answer = then_do (want_digest alloc_amount) (λ want.
      then_do (same_digest want answer.digest) (λ _.
        then_do (signature_bytes (hex_to_bytes answer.signature)) (λ sig.
          then_do (worded "ecrecover: " (t.sig_to_pub want (normalize_v sig)))
            (λ recovered. same_signer managed_wallet (t.pubkey_to_address recovered)))))
