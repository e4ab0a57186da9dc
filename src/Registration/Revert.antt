-- ===== src/Registration/Revert.antt =====
-- The reasons of failed transactions: extension/tools/pkg/fccutils/revert.go, and `CheckTx`,
-- `getFailingMessage` and `decodeRevertFromError` of extension/tools/pkg/support/support.go.
use mindorr.Prelude.{
  take, eqb, length, if◌then◌else◌, concat, ℕ, Result, List, Option, String, ok, err, [], ◌∷◌, none,
  some, ltb,
}
use mindorr.LiveServer.Address.{strip_0x}
use mindorr.Registration.{returned, reverted, Io, Receipt, Called, CallError, Node}
use mindorr.Text.Hex.{encode_hex, decode_hex}
use mindorr.Wire.{same_hash, Hash}
use mindorr.Text.{is_empty}

abbrev tail_of : String → Option String → String
tail_of s none = s
tail_of s (some rest) = rest

-- `strings.TrimPrefix(s, "0x")`.
abbrev pub trim_0x : String → String
trim_0x s = tail_of s (strip_0x s)

module _ {W Log : Type 0} (n : Node W Log) where
  abbrev unpacked : Option (List ℕ) → Option String
  unpacked none = none
  unpacked (some decoded) = n.unpack_revert decoded

  -- `decodeRevertFromError`: the empty text where there is no reason.
  abbrev pub decode_revert_from_error : CallError → String
  decode_revert_from_error e = elim e.revert_data [
    | none ↦ ""
    | some hex ↦ elim (unpacked (decode_hex (trim_0x hex))) [ none ↦ "" | some reason ↦ reason ]
  ]

  abbrev revert_text : String → Option (List ℕ) → String
  revert_text hex none = ""
  revert_text hex (some decoded) =
      if ltb (length decoded) 4
      then ""
      else elim (n.unpack_revert decoded) [ none ↦ concat ("0x" ∷ hex ∷ []) | some reason ↦ reason ]

  -- `decodeRevertHex`.
  unfoldable pub decode_revert_hex : String → String
  unfolding decode_hex strip_0x
  decode_revert_hex hex = let digits = trim_0x hex in revert_text digits (decode_hex digits)

  -- `DecodeRevertReason`.
  abbrev pub decode_revert_reason : CallError → String
  decode_revert_reason e = elim e.revert_data [ none ↦ "" | some hex ↦ decode_revert_hex hex ]

  abbrev simulated : Called (List ℕ) → String
  simulated (reverted e) =
      let reason = decode_revert_reason e in if is_empty reason then e.message else reason
  simulated (returned result) =
      if ltb (length result) 4 then "" else decode_revert_hex (encode_hex result)

  -- `SimulateAndDecodeRevert`.
  abbrev pub simulate_and_decode_revert : List ℕ → W → String
  simulate_and_decode_revert call w = simulated (n.call_contract call w)

  -- The loop over the custom errors.
  unfoldable pub matched_error : List ℕ → List (String × List ℕ × (List ℕ → String)) → String
  matched_error decoded [] = ""
  matched_error decoded ((name, id, arguments) ∷ errors) =
      let rest = matched_error decoded errors in
      if same_hash (take 4 id) (take 4 decoded)
      then concat (name ∷ arguments decoded ∷ [])
      else rest

  abbrev error_of_bytes : Option (List ℕ) → String
  error_of_bytes none = ""
  error_of_bytes (some decoded) =
      if ltb (length decoded) 4 then "" else matched_error decoded n.custom_errors

  -- `MatchCustomError`.
  unfoldable pub match_custom_error : String → String
  unfolding matched_error decode_hex strip_0x
  match_custom_error hex = error_of_bytes (decode_hex (trim_0x hex))

  abbrev failing_text : Called (List ℕ) → String
  failing_text (reverted e) =
      let reason = decode_revert_from_error e in if is_empty reason then e.message else reason
  failing_text (returned res) = elim (n.unpack_revert res) [
    | some reason ↦ reason
    | none ↦
        if ltb 0 (length res) then concat ("0x" ∷ encode_hex res ∷ []) else "unknown revert reason"
  ]

  -- `getFailingMessage`.
  abbrev pub get_failing_message : Hash → W → Result String
  get_failing_message tx w = elim (n.transaction tx w) [
    | err e ↦ err e
    | ok message ↦ ok (failing_text (n.call_contract message w))
  ]

  abbrev failed_tx : Result String → String
  failed_tx (err e) = e
  failed_tx (ok reason) = concat ("error: Transaction fail: " ∷ reason ∷ [])

  abbrev mined : Hash → Receipt Log → Io W (Receipt Log)
  mined tx receipt w =
      if eqb receipt.status 0
      then (err (failed_tx (get_failing_message tx w)), w)
      else (ok receipt, w)

  abbrev pub mining_error : Hash → Result (Receipt Log) × W → Result (Receipt Log) × W
  mining_error tx (err e, w) = (
    err (
        concat ("transaction not mined within 2 minutes (tx: 0x" ∷ encode_hex tx ∷ "): " ∷ e ∷ [])),
    w,
  )
  mining_error tx (ok receipt, w) = mined tx receipt w

  -- `CheckTx`.
  unfoldable pub check_tx : Hash → Io W (Receipt Log)
  unfolding decode_revert_hex match_custom_error
  check_tx tx w = mining_error tx (n.wait_mined tx w)
