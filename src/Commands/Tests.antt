-- ===== src/Commands/Tests.antt =====
-- A deployment, and a registration with all its steps, on a quiet chain.
use mindorr.Prelude.{ℕ, ◌≡◌, refl, ok, [], ◌∷◌, none, some, String, false}
use mindorr.Wire.{Hash}
use mindorr.Checks.Deploy.{Address, Client}
use mindorr.Registration.{Node, returned, done}
use mindorr.Registration.Sample.{quiet}
use mindorr.Registration.RegisterNode.{Keys, SignedInfo}
use mindorr.Registration.Machine.{Machines, TeeInfoResponse}
use mindorr.Instructions.{SenderContract}
use mindorr.Commands.{
  owner_key, Bool, true, allow_tee_version, Result, Started, RegisterFlags, deploy_contract,
  find_proxy_config,
}
use mindorr.Commands.Preflight.{IsGuarded, deploy_contract-IsDeployed}
use mindorr.Registration.Setup.{Registrar}
use mindorr.Registration.Machine.{tee_info}
use mindorr.Commands.Allowed.{allow_tee_version-IsAllowed, IsAllowed}

-- The world is the address that was written last.
abbrev chain : Node Address ℕ
chain = quiet Address

abbrev contract : SenderContract Address
contract = record {
  tee_manager = 7 ∷ [];
  deploy = λ a b w. (returned (8 ∷ [], 3 ∷ []), w);
  bind = λ a. ok done;
  call_set_extension_id = λ a w. (returned (3 ∷ []), w);
  call_update_key = λ a v b w. (returned (3 ∷ []), w);
  call_create = λ a v b w. (returned (3 ∷ []), w);
  call_set_policy = λ a v b w. (returned (3 ∷ []), w);
  call_allocate = λ a v b w. (returned (3 ∷ []), w);
  call_withdraw = λ a v b w. (returned (3 ∷ []), w);
  pack = λ a m v b. none;
}

abbrev client : Client
client = record {
  code_at = λ a. ok (96 ∷ []);
  balance_at = λ a. ok 20000000000000000;
  chain_id = ok 114;
}

abbrev started : Started
started = record { client = client; deployer = 2 ∷ []; manager = 7 ∷ [] }

abbrev hex : Address → String
hex a = "0x07"

abbrev write : String → Address → Address → Address
write file address w = address

deployed :
    deploy_contract chain (ok started) hex contract write "out" false []
    ≡ (ok (some (8 ∷ [])), 8 ∷ [])
unfolding deploy_contract
deployed = refl

deploy_contract-IsDeployed_example :
    IsGuarded chain contract hex write
      (ok started)
      "out"
      []
      (deploy_contract chain (ok started) hex contract write "out" false [])
deploy_contract-IsDeployed_example =
    deploy_contract-IsDeployed chain contract hex write (ok started) "out" []

abbrev signed : SignedInfo
signed = record {
  public_key = 1 ∷ [];
  info_hash = ok [];
  chain_id = 114;
  proxy_signature = 6 ∷ [];
  machine_data = [];
  data_signature = [];
}

abbrev info : TeeInfoResponse
info = record {
  signed = signed;
  attestation = "token";
  code_hash = 4 ∷ [];
  platform = 5 ∷ [];
  extension_id = 10;
}

abbrev keys : Keys
keys = record {
  parse_pub_key = λ b. ok b;
  address_of = λ b. b;
  payload_hash = λ c h. ok h;
  sig_to_pub = λ h s. ok s;
}

abbrev machines : Machines Address
machines = record {
  get = λ u w. (ok [], w);
  decode_info = λ b. ok info;
  post_url = λ u v w. (ok 200, w);
  parse_claims =
      λ s. ok (record { claimed_code_hash = ok (4 ∷ []); claimed_platform = ok (5 ∷ []) });
  keys = keys;
  getenv = λ s. "";
}

abbrev flags : RegisterFlags
flags = record {
  proxy_url = "u";
  host_url = "";
  ftdc_url = "f";
  instruction_id = [];
  command = "rRap";
  state_file = "s";
  resume = false;
}

-- A chain that has the proof of the check at hand.
abbrev proving : Node Address ℕ
proving = record chain {
  get_result = λ u h w. (ok (200, []), w);
  decode_action = λ b. ok (record { status = 1; result_data = []; log = "ok" });
  decode_prove_response = λ b.
      ok (record { response_header = []; request_body = []; response_body = []; signatures = [] });
}

abbrev to_hash_of : String → Hash
to_hash_of s = []

default_config :
    find_proxy_config (λ k. "") (λ p. false) "c" ≡ "./config/proxy/extension_proxy.toml"
default_config = refl

-- The version is added in a transaction, which writes.
abbrev registrar : Registrar Address ℕ
registrar = record {
  register = λ a b w. (returned (3 ∷ []), w);
  add_tee_machine_owners = λ i l w. (returned (3 ∷ []), w);
  add_wallet_project_owners = λ i l w. (returned (3 ∷ []), w);
  add_supported_key_types = λ i l w. (returned (3 ∷ []), w);
  add_tee_version = λ i v h p w. (returned (3 ∷ []), 9 ∷ []);
  is_tee_machine_owner = λ i a w. ok true;
  is_wallet_project_owner = λ i a w. ok true;
  is_key_type_supported = λ i k w. ok true;
  parse_extension_registered = λ l. ok 4;
  parse_contracts_set = λ l. ok done;
  parse_machine_owners_added = λ l. ok done;
  parse_project_owners_added = λ l. ok done;
  evm_type = [];
}

abbrev no_version : ℕ → Hash → Hash → Address → Result Bool
no_version i h p w = ok false

-- The transaction leaves the key that it was sent with in the world.
abbrev signing : Hash → Registrar Address ℕ
signing key = record registrar { add_tee_version = λ i v h p w. (returned (3 ∷ []), key) }

abbrev any_key : String → Result Hash
any_key text = ok (9 ∷ [])

abbrev with_owner : Machines Address
with_owner = record machines { getenv = λ name. "0x09" }

allowed :
    allow_tee_version
      (λ key. chain)
      signing
      (ok (2 ∷ []))
      with_owner
      any_key
      no_version
      "u"
      "v0.1.0"
      []
    ≡ (ok done, 9 ∷ [])
unfolding allow_tee_version
allowed = refl

allow_tee_version-IsAllowed_example :
    (found : TeeInfoResponse) × (told : Address) × (tee_info with_owner "u" [] ≡ (ok found, told))
    × ((prv key : Hash) × (ok (2 ∷ []) ≡ ok prv)
        × (owner_key (λ key. chain) signing (ok (2 ∷ [])) with_owner any_key no_version prv
            ≡ ok key)
        × IsAllowed
            (λ key. chain)
            signing
            (ok (2 ∷ []))
            with_owner
            any_key
            no_version
            key
            found
            "v0.1.0"
            told
            (9 ∷ []))
allow_tee_version-IsAllowed_example =
    allow_tee_version-IsAllowed (λ key. chain) signing (ok (2 ∷ [])) with_owner any_key no_version
      "u" "v0.1.0" [] (9 ∷ []) allowed

-- With no key set, the deployer's signs.
allowed_default :
    allow_tee_version
      (λ key. chain)
      signing
      (ok (2 ∷ []))
      machines
      any_key
      no_version
      "u"
      "v0.1.0"
      []
    ≡ (ok done, 2 ∷ [])
unfolding allow_tee_version
allowed_default = refl
