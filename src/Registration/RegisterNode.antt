-- ===== src/Registration/RegisterNode.antt =====
-- `RegisterNode`, `loadState` and `saveState` of extension/tools/pkg/fccutils/registration.go, and
-- `TeeProxyId` of extension/tools/pkg/fccutils/tee_calls.go.
use mindorr.Registration.Requests.{to_production, request_tee_attestation}
use mindorr.Registration.{then_do, Done, missing, unreadable, malformed, holds, done}
use mindorr.Prelude.{
  code, eqb, concat, replicate, ℕ, Bool, Result, List, String, ok, err, [], ◌∷◌, none, some, true,
  false, ◌||◌, not, Char,
}
use mindorr.Wire.{same_hash, Hash}
use mindorr.Registration.{
  lift, and_then, holds, Io, malformed, Node, unreadable, StateFile, RegistrationState,
}
use mindorr.Checks.Deploy.{Address}
use mindorr.Registration.Policy.{check_policy_consistency}
use mindorr.Registration.Requests.{
  request_ftdc_availability_check, pre_registration, get_ftdc_availability_check_result,
}

-- `strings.Contains` of one letter.
unfoldable pub contains : Char → String → Bool
contains letter String.[] = false
contains letter (String.◌∷◌ c s) =
    let rest = contains letter s in eqb (code c) (code letter) || rest

-- The parts of the signed TEE info that are read, with the hash of the info.
pub record SignedInfo : Type 0 where
  pub public_key : List ℕ
  pub info_hash : Result (List ℕ)
  pub chain_id : ℕ
  pub proxy_signature : List ℕ
  pub machine_data : List ℕ
  pub data_signature : List ℕ

-- `types.ParsePubKey`, `crypto.PubkeyToAddress`, the hash of the signed payload, and
-- `crypto.SigToPub` of its text hash.
pub record Keys : Type 0 where
  pub parse_pub_key : List ℕ → Result (List ℕ)
  pub address_of : List ℕ → Address
  pub payload_hash : ℕ → List ℕ → Result Hash
  pub sig_to_pub : Hash → List ℕ → Result (List ℕ)

-- `TeeProxyId`: the ids of the machine and of the proxy.
unfoldable pub tee_proxy_id : Keys → SignedInfo → Result (Address × Address)
tee_proxy_id keys info = then_do (keys.parse_pub_key info.public_key) (λ key.
    then_do info.info_hash (λ hash. then_do (keys.payload_hash info.chain_id hash) (λ signed.
      then_do (keys.sig_to_pub signed info.proxy_signature)
        (λ proxy. ok (keys.address_of key, keys.address_of proxy)))))

abbrev pub zero_hash : Hash
zero_hash = replicate 32 0

-- The three steps that the state file remembers, and their letters.
pub data Step : Type 0 where
  pre attest check : Step

abbrev pub letter : Step → Char
letter pre = "r"
letter attest = "R"
letter check = "a"

abbrev pub letter_text : Step → String
letter_text pre = "r"
letter_text attest = "R"
letter_text check = "a"

-- The id that a completed step has left in the state.
abbrev pub kept_id : Step → RegistrationState → Hash
kept_id pre st = st.tee_attest_instruction_id
kept_id attest st = st.tee_attest_instruction_id
kept_id check st = st.instruction_id

abbrev pub with_id : Step → Hash → RegistrationState → RegistrationState
with_id pre id st = record st { tee_attest_instruction_id = id }
with_id attest id st = record st { tee_attest_instruction_id = id }
with_id check id st = record st { instruction_id = id }

-- The state behind a step: its letter is added, and its id is kept.
abbrev pub completed : Step → Hash → RegistrationState → RegistrationState
completed step id st =
    with_id step id
      (record st { completed_steps = concat (st.completed_steps ∷ letter_text step ∷ []) })

-- `loadState`.
abbrev pub load_state : StateFile → Result RegistrationState
load_state missing = ok (record {
  completed_steps = "";
  tee_attest_instruction_id = zero_hash;
  instruction_id = zero_hash;
})
load_state (unreadable e) = err (concat ("failed to read state file: " ∷ e ∷ []))
load_state (malformed e) = err (concat ("failed to parse state file: " ∷ e ∷ []))
load_state (holds st) = ok st

module _ {W Log : Type 0} (n : Node W Log) (path : String) where
  -- `saveState` where its error is only logged.
  abbrev pub save_state : RegistrationState → W → W
  save_state st w = (n.write_state path st w).1

  -- The pause behind a step that did not fail.
  abbrev pub paused : {A : Type 0} → Result A × W → Result A × W
  paused (err e, w) = (err e, w)
  paused (ok a, w) = (ok a, n.sleep 1 w)

  -- A step that is not completed yet: it is run, and then remembered.
  abbrev run_step : Step → RegistrationState → Io W Hash → Io W (RegistrationState × Hash)
  run_step step st run =
      and_then run (λ id w. (ok (completed step id st, id), save_state (completed step id st) w))

  -- One `if` of `RegisterNode`: the step's id, which is `fallback` where the command leaves it out.
  unfoldable pub do_step :
      Step → String → RegistrationState → Hash → Io W Hash → Io W (RegistrationState × Hash)
  unfolding contains
  do_step step command st fallback run w = elim (contains (letter step) command) [
    | true ↦ paused (elim (contains (letter step) st.completed_steps) [
      | true ↦ (ok (st, kept_id step st), w)
      | false ↦ run_step step st run w
    ])
    | false ↦ (ok (st, fallback), w)
  ]

  abbrev is_registered : Result Address → Bool
  is_registered (err e) = false
  is_registered (ok tee_id) = not (same_hash tee_id (replicate 20 0))

  -- What the step "r" runs: a fresh attestation for a machine that is registered already.
  unfoldable pub pre_registered :
      String → Address → Address → (machine_data data_signature : List ℕ) → Io W Hash
  unfolding request_tee_attestation pre_registration
  pre_registered host_url tee_id proxy_id machine_data data_signature w =
      elim (is_registered (n.get_tee_machine tee_id w)) [
        | true ↦ request_tee_attestation n tee_id w
        | false ↦
            and_then (pre_registration n host_url proxy_id machine_data data_signature)
              (λ ids. lift (ok ids.1)) w
      ]

  -- What the step "a" runs: the check of the proxy's policy goes before the request.
  unfoldable pub checked : String → Address → Address → Hash → Io W Hash
  unfolding check_policy_consistency request_ftdc_availability_check
  checked ftdc_url tee_id ftdc_tee attest_id w =
      elim (check_policy_consistency (n.reward_epoch w) (n.last_signing_policy ftdc_url w)) [
        | some e ↦ (err e, w)
        | none ↦ request_ftdc_availability_check n tee_id ftdc_tee attest_id w
      ]

  -- The step "p", which is not remembered.
  unfoldable pub produced : String → String → Hash → Io W Done
  unfolding contains get_ftdc_availability_check_result to_production
  produced command ftdc_url id w = elim (contains "p" command) [
    | true ↦ and_then (get_ftdc_availability_check_result n ftdc_url id) (to_production n) w
    | false ↦ (ok done, w)
  ]

  module _ (info : SignedInfo) (host_url ftdc_url : String) (ftdc_tee : Address) (command : String)
      (given_id : Hash) where
    -- The steps behind "r", with the state and the id that it gives. `given_id` is the id of the
    -- command line.
    unfoldable pub later_steps : Address → RegistrationState × Hash → Io W Done
    unfolding do_step checked produced request_tee_attestation
    later_steps tee_id (st1, pre_id) =
        and_then (do_step attest command st1 pre_id (request_tee_attestation n tee_id))
          (λ (st2, attest_id).
            and_then
              (do_step check command st2 given_id (checked ftdc_url tee_id ftdc_tee attest_id))
              (λ (st3, id).
                and_then (produced command ftdc_url id) (λ _ w. (ok done, n.remove_state path w))))

    -- The step "r", from the state of the file.
    abbrev pub first_step : Address × Address → RegistrationState → Io W (RegistrationState × Hash)
    first_step (tee_id, proxy_id) st =
        do_step pre command st zero_hash
          (pre_registered host_url tee_id proxy_id info.machine_data info.data_signature)

    unfoldable pub run_steps : Address × Address → RegistrationState → Io W Done
    unfolding later_steps do_step pre_registered
    run_steps ids st = and_then (first_step ids st) (later_steps ids.0)

    -- `RegisterNode`.
    unfoldable pub register_node : Keys → Io W Done
    unfolding run_steps tee_proxy_id
    register_node keys w = elim (tee_proxy_id keys info) [
      | err e ↦ (err e, w)
      | ok ids ↦ elim (load_state (n.read_state path w)) [
        | err e ↦ (err e, w)
        | ok st ↦ run_steps ids st w
      ]
    ]
