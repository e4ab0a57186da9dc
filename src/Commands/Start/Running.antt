-- ===== src/Commands/Start/Running.antt =====
-- What the hosts of the extension have started when they end without an error.
use mindorr.Prelude.{
  ℕ, String, arith, false, Option, none, some, Result, ok, err, ◌≡◌, refl, subst, if_elim, ap, ◌∙◌,
}
use mindorr.Text.{is_empty}
use mindorr.Text.Decimal.{decimal}
use mindorr.Extension.Types.{new}
use mindorr.Checks.Deploy.{Address}
use mindorr.Registration.{Done, done, then_do}
use mindorr.Registration.Ensures.{
  Ensures, map-Ensures, Gives, Gives-Ensures, lift-Ensures, next-Ensures, of_Ensures,
  result-Ensures,
}
use mindorr.Registration.Machine.{Machines, set_proxy_url, status_ok}
use mindorr.Commands.Start.{OwnerKeys, set_env, set_owner_address, deployment_key}
use mindorr.Commands.Start.Hosts.{
  Environment, Host, start_servers, not_failed, load_env, run_extension, with_extension_id,
  start_tee,
}

module _ (k : OwnerKeys) (texts : (a : Address) → is_empty (k.address_text a) ≡ false) where
  -- The environment names an owner.
  abbrev Names : Result (Environment × Address) → Type 0
  Names (err e) = Unit
  Names (ok (owned, a)) = is_empty (owned "INITIAL_OWNER") ≡ false

  derived-Names :
      (env : Environment) (r : Result k.PrivateKey)
      → Names (
          then_do r (λ key. ok (
            set_env "INITIAL_OWNER" (k.address_text (k.address_of key)) env,
            k.hex_to_address (env "INITIAL_OWNER"),
          )))
  derived-Names env (err e) = tt
  derived-Names env (ok key) = texts (k.address_of key)

  set_owner_address-Names : (env : Environment) → Names (set_owner_address k env)
  unfolding set_owner_address
  set_owner_address-Names env =
      if_elim Names (is_empty (env "INITIAL_OWNER")) (λ _. derived-Names env (deployment_key k env))
        (λ there. there)

  named_with_extension_id :
      (extension_id : String) (env : Environment)
      → is_empty (env "INITIAL_OWNER") ≡ false
      → is_empty (with_extension_id extension_id env "INITIAL_OWNER") ≡ false
  named_with_extension_id extension_id env named =
      if_elim (λ (e : Environment). is_empty (e "INITIAL_OWNER") ≡ false) (is_empty extension_id)
        (λ _. named) (λ _. named)

  module _ {W : Type 0} (h : Host W) (m : Machines W) where
    not_failed-eq-ok :
        (text : String) (e : Option String) {d : Done} → not_failed h text e ≡ ok d → e ≡ none
    not_failed-eq-ok text none h = refl
    not_failed-eq-ok text (some e) h = cc

    -- A node and an extension that run: the node is started in an environment with an owner and with
    -- the id that was given; the extension's server has not failed 100 ms later; and the node has
    -- accepted the address of the proxy.
    pub record IsRunning (extension_id : String) (w w' : W) : Type 0 where
      pub env : Environment
      pub named : is_empty (env "INITIAL_OWNER") ≡ false
      pub numbered : is_empty extension_id ≡ false → env "EXTENSION_ID" ≡ extension_id
      pub listening :
          h.failure (h.sleep 100 (h.listen ":7702" new (h.start_node env 5501 7701 7702 w))) ≡ none
      pub pointed :
          m.post_url "http://localhost:5501/proxy" "http://localhost:6663"
            (h.sleep 150 (h.sleep 100 (h.listen ":7702" new (h.start_node env 5501 7701 7702 w))))
          ≡ (ok 200, w')

    status_ok-eq-ok : (status : ℕ) {d : Done} → status_ok m status ≡ ok d → status ≡ 200
    status_ok-eq-ok status e = ground (arith, e)

    set_proxy_url-Ensures :
        (w : W)
        → Ensures
            (λ d w'.
              m.post_url "http://localhost:5501/proxy" "http://localhost:6663" w ≡ (ok 200, w'))
            (set_proxy_url m 5501 6663 w)
    unfolding set_proxy_url decimal
    set_proxy_url-Ensures w =
        let Q = λ (d : Done) (w' : W).
          m.post_url "http://localhost:5501/proxy" "http://localhost:6663" w ≡ (ok 200, w') in
        let r = m.post_url "http://localhost:5501/proxy" "http://localhost:6663" w in
        next-Ensures (Gives r) Q _ r (Gives-Ensures r) λ status w1 e.
          result-Ensures Q (status_ok m status) w1
            λ d fine. e ∙ ap (λ (n : ℕ). (ok n, w1)) (status_ok-eq-ok status fine)

    run_extension-IsRunning :
        (extension_id : String) (env : Environment)
        → is_empty (env "INITIAL_OWNER") ≡ false
        → (is_empty extension_id ≡ false → env "EXTENSION_ID" ≡ extension_id)
        → (w : W) → Ensures (λ d w'. IsRunning extension_id w w') (run_extension h m k env w)
    unfolding run_extension start_servers decimal
    run_extension-IsRunning extension_id env named numbered w =
        let Q = λ (d : Done) (w' : W). IsRunning extension_id w w' in
        let w2 = h.sleep 100 (h.listen ":7702" new (h.start_node env 5501 7701 7702 w)) in
        lift-Ensures Q _ (not_failed h "extension server failed to start: " (h.failure w2)) w2
          λ _ fine.
            map-Ensures Q (set_proxy_url m 5501 6663 (h.sleep 150 w2))
              (set_proxy_url-Ensures (h.sleep 150 w2))
              λ d w' pointed. record {
                env = env;
                named = named;
                numbered = numbered;
                listening = not_failed-eq-ok _ _ fine;
                pointed = pointed;
              }

    given_id :
        (extension_id : String) (env : Environment)
        → is_empty extension_id ≡ false
        → with_extension_id extension_id env "EXTENSION_ID" ≡ extension_id
    given_id extension_id env given = rw given refl

    -- A run of start-tee that ends without an error, where no address has an empty text, has started
    -- the node in an environment with an owner and with the id that was given, then the extension's
    -- server, which had not failed 100 ms later; the node has accepted the address of the proxy; and
    -- only then a signal was waited for.
    pub start_tee-IsRunning :
        (extension_id root : String) (env : Environment) (w w' : W)
        → start_tee h m k extension_id root env w ≡ (ok done, w')
        → (before : W) × IsRunning extension_id (load_env h root env w).1 before
          × (w' ≡ h.wait_signal before)
    unfolding start_tee
    start_tee-IsRunning extension_id root env w w' e =
        let (loaded, w0) = load_env h root env w in
        let Q = λ (d : Done) (v : W).
          (before : W) × IsRunning extension_id w0 before × (v ≡ h.wait_signal before) in
        of_Ensures Q
          (lift-Ensures Q _ (set_owner_address k loaded) w0 λ (owned, owner) found.
            let env' = with_extension_id extension_id owned in
            next-Ensures (λ d v. IsRunning extension_id w0 v) Q _ (run_extension h m k env' w0)
              (run_extension-IsRunning extension_id env'
                (named_with_extension_id extension_id owned
                  (subst Names found (set_owner_address-Names loaded)))
                (given_id extension_id owned) w0)
              λ d before running. (before, running, refl))
          e
