-- ===== src/Audit/Tests.antt =====
-- The name of a platform, and a call that reverts with a custom error.
use mindorr.Prelude.{
  Result, ℕ, ◌≡◌, ◌≤◌, refl, arith, String, ok, err, List, [], ◌∷◌, none, some, length,
}
use mindorr.Wire.{Hash, utf8, string_to_bytes32}
use mindorr.Text.Trim.{trim_space}
use mindorr.Registration.{reverted, done}
use mindorr.Audit.{
  Replayer, ErrorDef, replay_add_tee_version, bytes32_to_string,
  bytes32_to_string-string_to_bytes32, EndsNotNul, pad_right,
}
use mindorr.Audit.Diagnosis.{
  Diagnoser, Availability, info, problem, custom_error, error_named, diag_availability_check_revert,
}
use mindorr.Audit.Query.{Registry, query, active_lines, machine_lines, tees_lines}
use mindorr.Audit.Diagnosis.Naming.{error_named-first}
use mindorr.Text.Decimal.{decimal}
use mindorr.Text.Hex.{encode_hex}

abbrev platform : String
platform = " TEST_PLATFORM"

abbrev reader : List ℕ → String
reader b = platform

ends : EndsNotNul (utf8 platform)
unfolding utf8
ends = ground arith

fits : length (utf8 platform) ≤ 32
unfolding utf8
fits = omega arith

bytes32_to_string-string_to_bytes32_example :
    (h : Hash) × (string_to_bytes32 platform ≡ ok h)
    × (bytes32_to_string reader h ≡ trim_space platform)
bytes32_to_string-string_to_bytes32_example =
    bytes32_to_string-string_to_bytes32 reader platform refl fits ends

abbrev exists_error : ErrorDef
exists_error = record {
  name = "VersionAlreadyExists";
  id = 1 ∷ 2 ∷ 3 ∷ 4 ∷ 5 ∷ [];
  unpack = λ b. ok "[]";
}

abbrev replayer : Replayer
replayer = record {
  load_abi = ok done;
  pack = λ i v c p. ok [];
  call = λ f t m.
      reverted (record { message = "execution reverted"; revert_data = some "0x01020304" });
  from_hex = λ s. 1 ∷ 2 ∷ 3 ∷ 4 ∷ [];
  unpack_revert = λ b. none;
  sources = ("MachineManager", err "no ABI") ∷ ("ExtensionManager", ok (exists_error ∷ [])) ∷ [];
}

replayed :
    replay_add_tee_version replayer [] [] 10 "v0.1.0" [] []
    ≡ "  revert -> ExtensionManager.VersionAlreadyExists[]"
unfolding replay_add_tee_version string_to_bytes32 utf8
replayed = refl

abbrev paused_error : ErrorDef
paused_error = record { name = "Paused"; id = 9 ∷ 9 ∷ 9 ∷ 9 ∷ []; unpack = λ b. ok "[]" }

abbrev abis : List (String × Result (List ErrorDef))
abis =
    ("Verification", err "no ABI")
    ∷ ("Fdc2Hub", ok (paused_error ∷ []))
    ∷ ("MachineManager", ok (exists_error ∷ []))
    ∷ []

abbrev diagnoser : Diagnoser
diagnoser = record {
  hex = λ a. "0x";
  load_abi = ok done;
  pack = λ a. ok [];
  call = λ f t v m.
      reverted (record { message = "execution reverted"; revert_data = some "0x01020304" });
  from_hex = λ s. 1 ∷ 2 ∷ 3 ∷ 4 ∷ [];
  unpack_revert = λ b. none;
  sources = abis;
}

first_error_named :
    error_named diagnoser abis (1 ∷ 2 ∷ 3 ∷ 4 ∷ [])
    ≡ custom_error diagnoser "MachineManager" exists_error (1 ∷ 2 ∷ 3 ∷ 4 ∷ [])
first_error_named =
    error_named-first diagnoser abis (1 ∷ 2 ∷ 3 ∷ 4 ∷ []) (("Fdc2Hub", paused_error) ∷ []) []
      "MachineManager" exists_error refl (refl, tt) refl

abbrev availability : Availability
availability = record {
  tee_id = [];
  instruction_id = [];
  external_tee_id = [];
  proof_owner = [];
  claim_back_address = [];
}

diagnosed :
    diag_availability_check_revert diagnoser [] [] 7 availability
    ≡ info "diag: eth_call requestAvailabilityCheckAttestation from=0x to=0x value=7"
      ∷ info "diag:   teeID=0x instructionID=0x externalTeeID=0x proofOwner=0x claimBack=0x"
      ∷ problem "diag: revert -> MachineManager.VersionAlreadyExists([])"
      ∷ []
unfolding diag_availability_check_revert error_named decimal encode_hex
diagnosed = refl

abbrev registry : Registry
registry = record {
  dial = ok done;
  bind = ok done;
  active_tee_machines =
      λ id. ok (record { tee_ids = (1 ∷ []) ∷ (2 ∷ []) ∷ []; urls = "http://a" ∷ "http://b" ∷ [] });
  tee_machine = λ a. ok (record { tee_id = a; tee_proxy_id = a; url = "http://a" });
  tee_machine_status = λ a. ok 2;
  tee_machine_owner = λ a. err "no owner";
  extension_id = λ a. ok 7;
  last_status_change_ts = λ a. ok 1;
  initial_signing_policy_id = λ a. ok 3;
  hex = λ a. "0x1";
  hex_to_address = λ s. 1 ∷ [];
}

queried :
    (query registry (some 7) []).printed
    ≡ "" ∷ "=== Active TEEs for extensionId=7 ===" ∷ "  0: 0x1 url=http://a"
      ∷ "  1: 0x1 url=http://b" ∷ []
unfolding query active_lines machine_lines tees_lines decimal
queried = refl

column : pad_right 5 "Hub" ≡ "Hub  "
unfolding pad_right
column = refl
