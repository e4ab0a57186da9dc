-- ===== src/LiveServer/Replies.antt =====
-- What the answers of the service tell: who is refused, and what an `ok` answer rests on.
pub mod Accepting
use mindorr.Prelude.{
  ℕ, Bool, true, false, not, ◌&&◌, String, [], ◌∷◌, some, Result, ok, err, ◌≡◌, ◌≢◌, refl, ◌⊎◌, inl,
  inr, arith, concat, if◌then◌else◌, ◌==◌, eq_iff, str_eq_of_ne,
}
use mindorr.Text.{is_empty, eq_of_is_empty}
use mindorr.Wire.{Hash}
use mindorr.LiveServer.Address.{valid_addr}
use mindorr.LiveServer.Risk.{normalize_risk}
use mindorr.LiveServer.Proxy.{Object, bool, json, ActionResult, send_direct, poll}
use mindorr.LiveServer.Handlers.{
  read_json, Read, on_given, given, replied, onboarded, policy_sent, set_policy, onboard,
  handle_onboard, responded, respond_action, acted, act, allocate, withdraw, handle_allocate,
  handle_withdraw, derive_wallet_address,
}
use mindorr.LiveServer.Requests.{
  Config, Request, Writer, Service, OnboardReq, ActionReq, allocate_intent, withdraw_intent, policy,
  write_err,
}
use mindorr.LiveServer.Replies.Accepting.{
  SaysOk, Accepted, read-SaysOk, passed, is_valid, acted-SaysOk, set_policy-SaysOk,
}
use mindorr.LiveServer.Server.{require_auth, with_cors, fresh, serve}

-- The paths behind the token.
abbrev pub IsGuarded : String → Type 0
IsGuarded path = (path ≡ "/onboard") ⊎ (path ≡ "/allocate") ⊎ (path ≡ "/withdraw")

module _ (cfg : Config) (s : Service) where
  open s use {proxy}
  open proxy use {World}

  -- The handler behind the token, for a guarded path.
  abbrev guarded_handler :
      {path : String} → IsGuarded path → Writer → Request → World → Writer × World
  guarded_handler (inl e) = handle_onboard cfg s
  guarded_handler (inr (inl e)) = handle_allocate cfg s
  guarded_handler (inr (inr e)) = handle_withdraw cfg s

  serve_guarded :
      (r : Request) (world : World) (path : IsGuarded r.path)
      → serve cfg s r world
        ≡ with_cors cfg s (require_auth cfg s (guarded_handler path)) fresh r world
  unfolding serve
  serve_guarded r world (inl e) = rw (e, serve)
  serve_guarded r world (inr (inl e)) = rw (e, serve)
  serve_guarded r world (inr (inr e)) = rw (e, serve)

  refused :
      (next : Writer → Request → World → Writer × World) (r : Request) (w : Writer) (world : World)
      → cfg.auth_token ≢ ""
      → r.token ≢ cfg.auth_token
      → require_auth cfg s next w r world ≡ (write_err 401 "unauthorized" w, world)
  unfolding require_auth
  refused next r w world configured wrong =
      let test : (not (is_empty cfg.auth_token) && not (r.token == cfg.auth_token)) ≡ true =
        ground (arith, eq_of_is_empty cfg.auth_token, eq_iff r.token cfg.auth_token) in
      rw test

  -- With a token configured, a request for a guarded path that shows another token, and is no
  -- OPTIONS request, is answered 401, and the world is left as it was.
  pub serve_unauthorized :
      (r : Request) (world : World)
      → cfg.auth_token ≢ ""
      → r.token ≢ cfg.auth_token
      → r.method ≢ "OPTIONS"
      → IsGuarded r.path
      → ((serve cfg s r world).0.code ≡ 401) × ((serve cfg s r world).1 ≡ world)
  unfolding with_cors
  serve_unauthorized r world configured wrong method path =
      rw
        (
          serve_guarded r world path,
          with_cors,
          str_eq_of_ne r.method "OPTIONS" method,
          refused (guarded_handler path) r _ world configured wrong,
        )
        (refl, refl)

  -- An OPTIONS request for a guarded path is answered 204, without a token, and does nothing.
  pub serve_options :
      (r : Request) (world : World)
      → r.method ≡ "OPTIONS"
      → IsGuarded r.path
      → ((serve cfg s r world).0.code ≡ 204) × ((serve cfg s r world).1 ≡ world)
  unfolding with_cors
  serve_options r world method path =
      rw (serve_guarded r world path, with_cors, method) (refl, refl)

  -- An allocation is answered `ok` only to a POST that decodes and names a valid user, after the
  -- enclave took the allocation and gave it status 1.
  pub handle_allocate-SaysOk :
      (w : Writer) (r : Request) (world : World)
      → SaysOk (handle_allocate cfg s w r world).0
      → (req : ActionReq) × (r.method ≡ "POST")
        × (s.decode_action_req r.body ≡ ok req)
        × (valid_addr req.user ≡ true)
        × Accepted cfg s "ALLOCATE" (allocate_intent req) world
  unfolding handle_allocate allocate
  handle_allocate-SaysOk w r world h =
      let (req, post, d, k) = read-SaysOk cfg s s.decode_action_req (allocate cfg s) w r world h in
      let (v, k') = passed cfg s (not (valid_addr req.user)) 400 _ w world _ k in
      (
        req,
        post,
        d,
        is_valid cfg s req.user v,
        acted-SaysOk cfg s _ _ (allocate_intent req) w world k',
      )

  -- A withdrawal is answered `ok` only to a POST that decodes and names a valid user and a valid
  -- destination, after the enclave took the withdrawal and gave it status 1.
  pub handle_withdraw-SaysOk :
      (w : Writer) (r : Request) (world : World)
      → SaysOk (handle_withdraw cfg s w r world).0
      → (req : ActionReq) × (r.method ≡ "POST")
        × (s.decode_action_req r.body ≡ ok req)
        × (valid_addr req.user ≡ true)
        × (valid_addr req.to ≡ true)
        × Accepted cfg s "WITHDRAW" (withdraw_intent req) world
  unfolding handle_withdraw withdraw
  handle_withdraw-SaysOk w r world h =
      let (req, post, d, k) = read-SaysOk cfg s s.decode_action_req (withdraw cfg s) w r world h in
      let (v, k') = passed cfg s (not (valid_addr req.user)) 400 _ w world _ k in
      let (v', k'') = passed cfg s (not (valid_addr req.to)) 400 _ w world _ k' in
      (
        req,
        post,
        d,
        is_valid cfg s req.user v,
        is_valid cfg s req.to v',
        acted-SaysOk cfg s _ _ (withdraw_intent req) w world k'',
      )

  -- Onboarding is answered `ok` only to a POST that decodes and names a valid user, after the
  -- enclave took the policy of that user and gave it status 1.
  pub handle_onboard-SaysOk :
      (w : Writer) (r : Request) (world : World)
      → SaysOk (handle_onboard cfg s w r world).0
      → (req : OnboardReq) × (r.method ≡ "POST")
        × (s.decode_onboard r.body ≡ ok req)
        × (valid_addr req.user ≡ true)
        × Accepted cfg s "SET_POLICY"
            (policy req.user (normalize_risk s.table req.risk_level))
            world
  unfolding handle_onboard onboard
  handle_onboard-SaysOk w r world h =
      let (req, post, d, k) = read-SaysOk cfg s s.decode_onboard (onboard cfg s) w r world h in
      let (v, k') = passed cfg s (not (valid_addr req.user)) 400 _ w world _ k in
      (
        req,
        post,
        d,
        is_valid cfg s req.user v,
        set_policy-SaysOk cfg s req (derive_wallet_address cfg s req.user) w world k',
      )
