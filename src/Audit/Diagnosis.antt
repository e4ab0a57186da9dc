-- ===== src/Audit/Diagnosis.antt =====
-- `diagAvailabilityCheckRevert` of extension/tools/pkg/fccutils/diag.go: a call that is simulated when
-- the request of an availability check reverts. The diagnosis is the list of lines that it logs, a
-- quoted text being written as it is.
pub mod Naming
use mindorr.Prelude.{
  ℕ, ltb, eqb, length, take, concat, Option, none, some, String, Result, ok, err, List, [], ◌∷◌,
  ◌++◌, if◌then◌else◌,
}
use mindorr.Text.Hex.{encode_hex}
use mindorr.Text.Decimal.{decimal}
use mindorr.Wire.{Hash, same_hash}
use mindorr.Checks.Deploy.{Address}
use mindorr.Registration.{Done, Called, CallError, returned, reverted}
use mindorr.Registration.Requests.{drop}
use mindorr.Audit.Replay.{ErrorDef}

-- A line of the log, by its level.
pub data Line : Type 0 where
  info : String → Line
  warning : String → Line
  problem : String → Line

-- What the call asks for.
pub record Availability : Type 0 where
  pub tee_id : Address
  pub instruction_id : Hash
  pub external_tee_id : Address
  pub proof_owner : Address
  pub claim_back_address : Address

-- What the diagnosis takes from the libraries.
pub record Diagnoser : Type 0 where
  pub hex : Address → String
  -- The ABI of the verification contract, with packing of `requestAvailabilityCheckAttestation`.
  pub load_abi : Result Done
  pub pack : Availability → Result (List ℕ)
  -- `CallContract` from an address to an address, with a value.
  pub call : (from to : Address) (value : ℕ) → List ℕ → Called (List ℕ)
  pub from_hex : String → List ℕ
  pub unpack_revert : List ℕ → Option String
  -- The four ABIs with their names, in order, and the errors of each in the order of the map.
  pub sources : List (String × Result (List ErrorDef))

module _ (r : Diagnoser) where
  abbrev pub custom_error : String → ErrorDef → List ℕ → String
  custom_error source def revert_data = elim (def.unpack (drop 4 revert_data)) [
    | err e ↦ concat (
        "diag: revert -> "
        ∷ source
        ∷ "."
        ∷ def.name
        ∷ " (arg unpack failed: "
        ∷ e
        ∷ ") data=0x"
        ∷ encode_hex revert_data
        ∷ [])
    | ok args ↦ concat ("diag: revert -> " ∷ source ∷ "." ∷ def.name ∷ "(" ∷ args ∷ ")" ∷ [])
  ]

  -- The loop over the errors of one ABI; where none fits, the search goes on behind it.
  unfoldable pub error_among : String → List ErrorDef → List ℕ → String → String
  error_among source [] revert_data later = later
  error_among source (def ∷ defs) revert_data later =
      let rest = error_among source defs revert_data later in
      if same_hash (take 4 def.id) (take 4 revert_data)
      then custom_error source def revert_data
      else rest

  -- The loop over the ABIs, one that is not loaded being passed over, and the line behind it.
  unfoldable pub error_named : List (String × Result (List ErrorDef)) → List ℕ → String
  unfolding error_among
  error_named [] revert_data = concat (
      "diag: revert with unknown selector 0x"
      ∷ encode_hex (take 4 revert_data)
      ∷ "; full data: 0x"
      ∷ encode_hex revert_data
      ∷ [])
  error_named ((source, err e) ∷ sources) revert_data = error_named sources revert_data
  error_named ((source, ok defs) ∷ sources) revert_data =
      error_among source defs revert_data (error_named sources revert_data)

  abbrev pub reason_or_error : List ℕ → Option String → Line
  reason_or_error revert_data (some reason) =
      problem (concat ("diag: revert reason (string): " ∷ reason ∷ []))
  reason_or_error revert_data none = problem (error_named r.sources revert_data)

  abbrev pub revert_line : CallError → List ℕ → Line
  revert_line e revert_data =
      if eqb (length revert_data) 0
      then warning (concat ("diag: eth_call error has no revert data: " ∷ e.message ∷ []))
      else if ltb (length revert_data) 4
      then warning (
          concat
            ("diag: revert data too short to contain a selector: 0x" ∷ encode_hex revert_data ∷ []))
      else if same_hash (take 4 revert_data) (0x08 ∷ 0xc3 ∷ 0x79 ∷ 0xa0 ∷ [])
      then reason_or_error revert_data (r.unpack_revert revert_data)
      else problem (error_named r.sources revert_data)

  abbrev revert_data_of : CallError → List ℕ
  revert_data_of e = elim e.revert_data [ none ↦ [] | some hex ↦ r.from_hex hex ]

  abbrev called_line : Called (List ℕ) → Line
  called_line (returned result) =
      warning "diag: eth_call unexpectedly succeeded — revert may be tx-time/gas-related"
  called_line (reverted e) = revert_line e (revert_data_of e)

  abbrev asked_lines : (from to : Address) (value : ℕ) → Availability → List Line
  asked_lines from to value a =
      info (
        concat (
          "diag: eth_call requestAvailabilityCheckAttestation from="
          ∷ r.hex from
          ∷ " to="
          ∷ r.hex to
          ∷ " value="
          ∷ decimal value
          ∷ []))
      ∷ info (
          concat (
            "diag:   teeID="
            ∷ r.hex a.tee_id
            ∷ " instructionID=0x"
            ∷ encode_hex a.instruction_id
            ∷ " externalTeeID="
            ∷ r.hex a.external_tee_id
            ∷ " proofOwner="
            ∷ r.hex a.proof_owner
            ∷ " claimBack="
            ∷ r.hex a.claim_back_address
            ∷ []))
      ∷ []

  -- `diagAvailabilityCheckRevert`.
  unfoldable pub diag_availability_check_revert :
      (from to : Address) (value : ℕ) → Availability → List Line
  unfolding error_named decimal
  diag_availability_check_revert from to value a = elim r.load_abi [
    | err e ↦ warning (concat ("diag: load Verification ABI: " ∷ e ∷ [])) ∷ []
    | ok d ↦ elim (r.pack a) [
      | err e ↦ warning (concat ("diag: pack calldata: " ∷ e ∷ [])) ∷ []
      | ok calldata ↦
          asked_lines from to value a ++ (called_line (r.call from to value calldata) ∷ [])
    ]
  ]
