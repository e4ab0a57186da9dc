-- ===== src/Registration.antt =====
-- The registration of a TEE machine by extension/tools/pkg/fccutils: the calls that it makes.
-- Every call of the chain, the proxy or the disk is a parameter, a field of `Node`, on an abstract
-- world `W`; the code that makes the calls is in the modules below.
pub mod Policy
pub mod Revert
pub mod Requests
pub mod RegisterNode
pub mod Resume
pub mod Produced
pub mod Outcomes
pub mod Waiting
pub mod Ensures
pub mod Sample
pub mod Machine
pub mod Setup
mod Tests
use mindorr.Prelude.{Option, List, ℕ, String, Result, ◌≡◌, refl, ok, err, [], ◌∷◌}
use mindorr.Wire.{Hash}
use mindorr.Checks.Deploy.{Address}
use mindorr.LiveServer.Proxy.{ActionResult}

-- Fallible code on the world.
abbrev pub Io : Type 0 → Type 0 → Type 0
Io W A = W → Result A × W

abbrev pub next : {W A B : Type 0} → (A → Io W B) → Result A × W → Result B × W
next f (ok a, w) = f a w
next f (err e, w) = (err e, w)

-- One step after the other; an error ends them.
abbrev pub and_then : {W A B : Type 0} → Io W A → (A → Io W B) → Io W B
and_then m f w = next f (m w)

-- The same for `do`.
infixl 5 ◌>>=◌ ◌>>◌
abbrev pub ◌>>=◌ : {W A B : Type 0} → Io W A → (A → Io W B) → Io W B
m >>= f = and_then m f

abbrev pub ◌>>◌ : {W A B : Type 0} → Io W A → Io W B → Io W B
m >> k = and_then m (λ _. k)

abbrev pub lift : {W A : Type 0} → Result A → Io W A
lift r w = (r, w)

-- A pure step behind another.
abbrev pub then_do : {A B : Type 0} → Result A → (A → Result B) → Result B
then_do (err e) f = err e
then_do (ok a) f = f a

-- The result of code that returns an error or nothing.
pub data Done : Type 0 where
  done : Done

-- An error of a call: its message and, where the node gives it, the revert data in hex.
pub record CallError : Type 0 where
  pub message : String
  pub revert_data : Option String

pub data Called (A : Type 0) : Type 0 where
  returned : A → Called A
  reverted : CallError → Called A

-- A mined transaction; `Log` is an event that is not parsed yet.
pub record Receipt (Log : Type 0) : Type 0 where
  pub status : ℕ
  pub logs : List Log

-- `registrationState`.
pub record RegistrationState : Type 0 where
  pub completed_steps : String
  pub tee_attest_instruction_id : Hash
  pub instruction_id : Hash

-- What `os.ReadFile` and `json.Unmarshal` make of the state file.
pub data StateFile : Type 0 where
  missing : StateFile
  unreadable malformed : String → StateFile
  holds : RegistrationState → StateFile

-- The arguments of the contract's `register`; the machine's data is passed on as it was received.
pub record Register : Type 0 where
  pub machine_data : List ℕ
  pub v : ℕ
  pub r : List ℕ
  pub s : List ℕ
  pub proxy_id : Address
  pub host_url : String
  pub claim_back : Address

-- The proof of an availability check: the id of the machine that it is about, and the other parts.
pub record Proof : Type 0 where
  pub signatures : List ℕ
  pub header : List ℕ
  pub tee_id : Address
  pub request_rest : List ℕ
  pub response : List ℕ

-- `fdc.ProveResponse`: the signatures, and three parts that are still encoded.
pub record ProveResponse : Type 0 where
  pub signatures : List ℕ
  pub response_header : List ℕ
  pub request_body : List ℕ
  pub response_body : List ℕ

-- The calls, on a world `W`, with events of type `Log`. A call that sends a transaction or that
-- waits gives the world behind it; one that only asks does not.
pub record Node (W Log : Type 0) : Type 0 where
  -- `bind.NewKeyedTransactorWithChainID`, and the address of the key.
  pub transactor : Result Done
  pub sender : Address
  -- The contracts: each sends a transaction and gives its hash.
  pub register : Register → W → Called Hash × W
  pub request_tee_attestation : Address → Address → W → Called Hash × W
  pub request_availability_check : Address → Hash → Address → Address → W → Called Hash × W
  pub to_production : Proof → W → Called Hash × W
  pub get_tee_machine : Address → W → Result Address
  -- `bind.WaitMined`, `TransactionByHash` with the sender, and `CallContract` of a transaction.
  pub wait_mined : Hash → W → Result (Receipt Log) × W
  pub transaction : Hash → W → Result (List ℕ)
  pub call_contract : List ℕ → W → Called (List ℕ)
  -- The ABI: `abi.UnpackRevert`, packing of `register`, and the custom errors: the name, the id and
  -- the text of the arguments, empty where there is none to show, in the order of the map.
  pub unpack_revert : List ℕ → Option String
  pub pack_register : Register → Option (List ℕ)
  pub custom_errors : List (String × List ℕ × (List ℕ → String))
  pub parse_instructions_sent : Log → Result Hash
  pub parse_attestation_requested : Log → Result Hash
  pub transform_signature : List ℕ → Result (List ℕ)
  -- The proxy: one `http.Get`, a pause of so many seconds, and decoding of an answer.
  pub get_result : String → Hash → W → Result (ℕ × List ℕ) × W
  pub sleep : ℕ → W → W
  pub decode_action : List ℕ → Result ActionResult
  pub decode_prove_response : List ℕ → Result ProveResponse
  pub decode_header : List ℕ → Result (List ℕ)
  pub decode_request : List ℕ → Result (Address × List ℕ)
  pub decode_response : List ℕ → Result (List ℕ)
  -- The chain's epoch and the proxy's policy.
  pub reward_epoch : W → Result (Option ℕ)
  pub last_signing_policy : String → W → Result ℕ
  -- The disk.
  pub read_state : String → W → StateFile
  pub write_state : String → RegistrationState → W → Result Done × W
  pub remove_state : String → W → W
