-- ===== src/Commands/Start/Tests.antt =====
-- A host on which everything starts.
use mindorr.Prelude.{ℕ, suc, ◌≡◌, refl, String, Option, none, ok, err, [], ◌∷◌, false}
use mindorr.Text.{is_empty}
use mindorr.Checks.Deploy.{Address}
use mindorr.Registration.{done}
use mindorr.Registration.Machine.{Machines}
use mindorr.Commands.Start.{OwnerKeys}
use mindorr.Commands.Start.Hosts.{Environment, Host, start_tee, docker, load_env, init_config}
use mindorr.Commands.Start.Running.{IsRunning, start_tee-IsRunning}

-- The world counts what is started, and there is no `.env`.
abbrev host : Host ℕ
host = record {
  load = λ path env w. (err "no such file", w);
  start_node = λ env c s e w. suc w;
  listen = λ address state w. suc w;
  failure = λ w. none;
  sleep = λ ms w. w;
  wait_signal = λ w. w;
  wait_signal_or_failure = λ w. (none, w);
}

abbrev machines : Machines ℕ
machines = record {
  get = λ u w. (ok [], w);
  decode_info = λ b. err "EOF";
  post_url = λ u v w. (ok 200, suc w);
  parse_claims = λ s. err "no token";
  keys = record {
    parse_pub_key = λ b. ok b;
    address_of = λ b. b;
    payload_hash = λ c h. ok h;
    sig_to_pub = λ h s. ok s;
  };
  getenv = λ s. "";
}

abbrev owner_keys : OwnerKeys
owner_keys = record {
  PrivateKey = String;
  hex_to_ecdsa = λ text. ok text;
  address_of = λ key. 1 ∷ [];
  address_text = λ a. "0x01";
  hex_to_address = λ text. 0 ∷ [];
}

abbrev no_env : Environment
no_env key = ""

running : start_tee host machines owner_keys "0x0a" "/project/.env" no_env 0 ≡ (ok done, 3)
unfolding start_tee
running = refl

has_text : (a : Address) → is_empty (owner_keys.address_text a) ≡ false
has_text a = refl

start_tee-IsRunning_example :
    (before : ℕ) × IsRunning owner_keys has_text host machines "0x0a"
      (load_env host "/project/.env" no_env 0).1
      before
    × (3 ≡ host.wait_signal before)
start_tee-IsRunning_example =
    start_tee-IsRunning owner_keys has_text host machines "0x0a" "/project/.env" no_env 0 3 running

abbrev atoi : String → Option ℕ
atoi text = none

-- Without an environment the ports are those of the code.
docker_default : init_config atoi no_env ≡ (8080, 9090)
docker_default = refl

docker_ends : docker host atoi no_env 0 ≡ (ok done, 2)
unfolding docker
docker_ends = refl
