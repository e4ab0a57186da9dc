-- ===== src/Commands/Start/Proxy.antt =====
-- The proxy of the extension: `main`, `loadEnv` and `logProxyAndTeeIds` of
-- extension/tools/cmd/start-proxy/main.go.
use mindorr.Prelude.{Bool, String, Result, concat, [], ◌∷◌}
use mindorr.Checks.Deploy.{Address}
use mindorr.Registration.{Io, ◌>>=◌}
use mindorr.Registration.Machine.{Machines, get_tee_proxy_id}
use mindorr.Registration.Setup.{worded_io}
use mindorr.Commands.{find_proxy_config}
use mindorr.Commands.Start.Hosts.{Environment, Host, load_env}

-- `proxyConfig.Read`, of which the external port is used, `initProxy.Init`, and `os.Stat`.
pub record ProxyHost (W : Type 0) : Type 0 where
  pub read_external_port : String → W → Result String × W
  pub init_proxy : String → W → W
  pub is_there : W → String → Bool

module _ {W : Type 0} (h : Host W) (p : ProxyHost W) (m : Machines W) where
  -- `logProxyAndTeeIds`: the ids that it logs.
  unfoldable pub log_proxy_and_tee_ids : String → Io W (Address × Address)
  unfolding get_tee_proxy_id
  log_proxy_and_tee_ids file = do
    port ← (λ w. worded_io "failed to read proxy config: " (p.read_external_port file w))
    (λ w.
        worded_io "failed to extract teeID and proxyID: "
          (get_tee_proxy_id m (concat ("http://localhost:" ∷ port ∷ [])) w))

  -- `main` behind the reading of `.env`.
  abbrev pub start_proxy_in :
      (candidate : String) → Environment × W → Result (Address × Address) × W
  start_proxy_in candidate (env, w) =
      let file = find_proxy_config env (p.is_there w) candidate in
      let (logged, w') = log_proxy_and_tee_ids file (p.init_proxy file w) in
      (logged, h.wait_signal w')

  -- `main`: what it logs, the ids or the error of which it only warns; it ends when a signal comes.
  unfoldable pub start_proxy :
      (root candidate : String) → Environment → W → Result (Address × Address) × W
  unfolding load_env log_proxy_and_tee_ids
  start_proxy root candidate env w = start_proxy_in candidate (load_env h root env w)
