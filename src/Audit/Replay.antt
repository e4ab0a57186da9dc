-- ===== src/Audit/Replay.antt =====
-- `replayAddTeeVersion` of extension/tools/cmd/audit-deploy/main.go: a call that is only simulated,
-- and the reason that it gives.
use mindorr.Prelude.{
  ℕ, ltb, length, take, concat, Option, none, some, String, Result, ok, err, List, [], ◌∷◌,
  if◌then◌else◌,
}
use mindorr.Text.Hex.{encode_hex}
use mindorr.Wire.{Hash, same_hash, string_to_bytes32}
use mindorr.Checks.Deploy.{Address}
use mindorr.Registration.{Done, Called, CallError, returned, reverted}
use mindorr.Registration.Requests.{drop}

-- A custom error of an ABI: its name, its id, and the text of its arguments.
pub record ErrorDef : Type 0 where
  pub name : String
  pub id : List ℕ
  pub unpack : List ℕ → Result String

pub record Replayer : Type 0 where
  -- The ABI of the extension manager, with packing of `addTeeVersion`.
  pub load_abi : Result Done
  pub pack : (id : ℕ) (version code_hash platform : Hash) → Result (List ℕ)
  -- `CallContract` from an address to an address.
  pub call : (from to : Address) → List ℕ → Called (List ℕ)
  pub from_hex : String → List ℕ
  pub unpack_revert : List ℕ → Option String
  -- The three ABIs with their names, in order, and the errors of each in the order of the map.
  pub sources : List (String × Result (List ErrorDef))

module _ (r : Replayer) where
  -- `ExtractRevertData`.
  abbrev extract_revert_data : CallError → List ℕ
  extract_revert_data e = elim e.revert_data [ none ↦ [] | some hex ↦ r.from_hex hex ]

  abbrev reason_line : String → ErrorDef → List ℕ → String
  reason_line source def revert_data = elim (def.unpack (drop 4 revert_data)) [
    | err e ↦ concat (
        "  revert -> "
        ∷ source
        ∷ "."
        ∷ def.name
        ∷ " (unpack failed: "
        ∷ e
        ∷ ") data=0x"
        ∷ encode_hex revert_data
        ∷ [])
    | ok args ↦ concat ("  revert -> " ∷ source ∷ "." ∷ def.name ∷ args ∷ [])
  ]

  -- The loop over the errors of one ABI.
  unfoldable pub named_in : String → List ErrorDef → List ℕ → Option String
  named_in source [] revert_data = none
  named_in source (def ∷ defs) revert_data =
      let rest = named_in source defs revert_data in
      if same_hash (take 4 def.id) (take 4 revert_data)
      then some (reason_line source def revert_data)
      else rest

  abbrev or_else : Option String → Option String → Option String
  or_else none later = later
  or_else (some line) later = some line

  -- The loop over the ABIs; one that is not loaded is passed over.
  unfoldable pub named_by : List (String × Result (List ErrorDef)) → List ℕ → Option String
  unfolding named_in
  named_by [] revert_data = none
  named_by ((source, err e) ∷ sources) revert_data = named_by sources revert_data
  named_by ((source, ok defs) ∷ sources) revert_data =
      or_else (named_in source defs revert_data) (named_by sources revert_data)

  abbrev custom_line : List ℕ → String
  custom_line revert_data = elim (named_by r.sources revert_data) [
    | some line ↦ line
    | none ↦ concat (
        "  revert with unknown selector 0x"
        ∷ encode_hex (take 4 revert_data)
        ∷ " (full: 0x"
        ∷ encode_hex revert_data
        ∷ ")"
        ∷ [])
  ]

  abbrev string_line : List ℕ → Option String → String
  string_line revert_data (some reason) = concat ("  revert reason (string): " ∷ reason ∷ [])
  string_line revert_data none = custom_line revert_data

  abbrev revert_line : CallError → List ℕ → String
  revert_line e revert_data =
      if ltb (length revert_data) 4
      then concat ("  no/short revert data: " ∷ e.message ∷ [])
      else if same_hash (take 4 revert_data) (0x08 ∷ 0xc3 ∷ 0x79 ∷ 0xa0 ∷ [])
      then string_line revert_data (r.unpack_revert revert_data)
      else custom_line revert_data

  abbrev called_line : Called (List ℕ) → String
  called_line (returned result) = "  eth_call succeeded — tx-time-only revert (gas/state race?)"
  called_line (reverted e) = revert_line e (extract_revert_data e)

  -- `replayAddTeeVersion`: the line that it prints.
  unfoldable pub replay_add_tee_version :
      (to from : Address) (id : ℕ) (version : String) (code_hash platform : Hash) → String
  unfolding named_by string_to_bytes32
  replay_add_tee_version to from id version code_hash platform = elim r.load_abi [
    | err e ↦ concat ("  load ABI: " ∷ e ∷ [])
    | ok d ↦ elim (string_to_bytes32 version) [
      | err e ↦ concat ("  version: " ∷ e ∷ [])
      | ok bytes ↦ elim (r.pack id bytes code_hash platform) [
        | err e ↦ concat ("  pack: " ∷ e ∷ [])
        | ok calldata ↦ called_line (r.call from to calldata)
      ]
    ]
  ]
