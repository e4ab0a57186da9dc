-- ===== src/Commands/Start/Hosts.antt =====
-- The processes that host the node and the extension: `main`, `loadEnv` and `runExtension` of
-- extension/go/cmd/start-tee/main.go, `main` of extension/go/cmd/docker/main.go, `StartExtension` of
-- extension/go/pkg/server/server.go, and `init` of extension/go/internal/config/config.go. The lines
-- that are only logged are left out.
use mindorr.Prelude.{ℕ, String, Option, none, some, Result, ok, err, concat, [], ◌∷◌, if◌then◌else◌}
use mindorr.Text.{is_empty}
use mindorr.Text.Decimal.{decimal}
use mindorr.Extension.Types.{Extension, new}
use mindorr.Registration.{Io, ◌>>=◌, ◌>>◌, lift, Done, done}
use mindorr.Registration.Machine.{Machines, set_proxy_url}
use mindorr.Commands.Start.{OwnerKeys, set_env, set_owner_address, point_node, int_env}

-- The environment of a process.
abbrev pub Environment : Type 0
Environment = String → String

-- What a process asks of the machine: `godotenv.Load` of a file, which gives the environment behind
-- it; `teeServer.StartServerExtension` with its three ports, which reads the environment;
-- `ListenAndServe` of a server at an address, in a goroutine that sends its error to a channel; the
-- error that the channel holds, if it holds one; milliseconds of `time.Sleep`; and the waiting for a
-- signal, in docker for a signal or an error of the server.
pub record Host (W : Type 0) : Type 0 where
  pub load : String → Environment → W → Result Environment × W
  pub start_node : Environment → (configuration_port sign_port extension_port : ℕ) → W → W
  pub listen : String → Extension → W → W
  pub failure : W → Option String
  pub sleep : ℕ → W → W
  pub wait_signal : W → W
  pub wait_signal_or_failure : W → Option String × W

abbrev pub configuration_port : ℕ
configuration_port = 5501

abbrev pub proxy_internal_port : ℕ
proxy_internal_port = 6663

abbrev pub extension_server_port : ℕ
extension_server_port = 7701

abbrev pub extension_port : ℕ
extension_port = 7702

-- One port of the configuration; of the answers of `strconv.Atoi` those that are not negative are
-- modelled.
abbrev pub port_or : (String → Option ℕ) → String → ℕ → ℕ
port_or atoi text default =
    if is_empty text then default else elim (atoi text) [ some v ↦ v | none ↦ default ]

-- `init` of the package config: the port for the extension and the one for signing.
abbrev pub init_config : (String → Option ℕ) → Environment → ℕ × ℕ
init_config atoi env =
    (port_or atoi (env "EXTENSION_PORT") 8080, port_or atoi (env "SIGN_PORT") 9090)

-- The id of the flag, where it is given, over the one in the environment.
abbrev pub with_extension_id : String → Environment → Environment
with_extension_id extension_id env =
    if is_empty extension_id then env else set_env "EXTENSION_ID" extension_id env

module _ {W : Type 0} (h : Host W) where
  -- `StartExtension`; the port for signing is not used.
  abbrev pub start_extension : (extension_port sign_port : ℕ) → W → W
  start_extension port sign_port w = h.listen (concat (":" ∷ decimal port ∷ [])) new w

  -- The early failure of a server is an error.
  abbrev pub not_failed : String → Option String → Result Done
  not_failed text none = ok done
  not_failed text (some e) = err (concat (text ∷ e ∷ []))

  -- The two servers are started, and the extension's is still there after 100 ms.
  unfoldable pub start_servers : Environment → (configuration sign extension : ℕ) → Io W Done
  start_servers env configuration sign extension w =
      let w1 = h.start_node env configuration sign extension w in
      let w2 = h.sleep 100 (start_extension extension sign w1) in
      (not_failed "extension server failed to start: " (h.failure w2), w2)

  -- `loadEnv`: the file at the project's root, or else the one of the working directory, or else the
  -- environment as it is.
  abbrev or_else : Environment → Result Environment × W → Environment × W
  or_else env (ok loaded, w) = (loaded, w)
  or_else env (err e, w) = (env, w)

  abbrev or_local : Environment → Result Environment × W → Environment × W
  or_local env (ok loaded, w) = (loaded, w)
  or_local env (err e, w) = or_else env (h.load ".env" env w)

  unfoldable pub load_env : (root : String) → Environment → W → Environment × W
  load_env root env w = or_local env (h.load root env w)

  module _ (m : Machines W) (k : OwnerKeys) where
    -- `runExtension`.
    unfoldable pub run_extension : Environment → Io W Done
    unfolding start_servers set_proxy_url
    run_extension env = do
      start_servers env configuration_port extension_server_port extension_port
      (λ w. (ok done, h.sleep 150 w))
      point_node m configuration_port proxy_internal_port

    -- `main` of start-tee, behind the reading of `.env`.
    abbrev pub start_tee_in : String → Environment × W → Result Done × W
    unfolding set_owner_address run_extension
    start_tee_in extension_id (env, w) =
        (do
          (owned, owner) ← lift (set_owner_address k env)
          run_extension (with_extension_id extension_id owned)
          (λ w. (ok done, h.wait_signal w)))
          w

    -- `main` of start-tee: it ends without an error when a signal comes.
    unfoldable pub start_tee : (extension_id root : String) → Environment → Io W Done
    unfolding start_tee_in load_env
    start_tee extension_id root env w = start_tee_in extension_id (load_env root env w)

  -- `main` of docker: it ends without an error when a signal comes, and with one when the server fails.
  unfoldable pub docker : (atoi : String → Option ℕ) → Environment → Io W Done
  unfolding start_servers
  docker atoi env = do
    let (extension, sign) = init_config atoi env
    start_servers env (int_env atoi env "CONFIG_PORT" 5501) sign extension
    (λ w. let (e, w') = h.wait_signal_or_failure w in (not_failed "extension server error: " e, w'))
