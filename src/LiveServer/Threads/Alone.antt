-- ===== src/LiveServer/Threads/Alone.antt =====
-- A thread that runs by itself, against the handlers of LiveServer/Server.
use mindorr.Prelude.{
  ℕ, zero, suc, Bool, true, false, not, String, Option, none, some, Result, ok, err, ◌≡◌, refl, ◌∙◌,
  ◌==◌, if◌then◌else◌,
}
use mindorr.Wire.{Hash}
use mindorr.LiveServer.Address.{valid_addr}
use mindorr.LiveServer.Proxy.{
  Proxy, ActionResult, Fetched, ready, failed, not_ready, Object, decide, send_direct, poll,
  poll_from, poll_rounds, fetch_submit_result,
}
use mindorr.LiveServer.Requests.{ActionReq, Config, OnboardReq, Request, Service, Writer}
use mindorr.LiveServer.Handlers.{
  Read, given, replied, on_given, handle_health, handle_onboard, handle_allocate, handle_withdraw,
  onboard, allocate, withdraw, set_policy, policy_sent, act, acted, respond_action,
  derive_wallet_address,
}
use mindorr.LiveServer.Server.{Handler, require_auth, with_cors, fresh, serve}
use mindorr.LiveServer.Threads.{
  Program, respond, acquire, release, send, fetch, wait, wait_unless, settle, poll_program,
  policy_sent_program, set_policy_program, onboard_program, acted_program, act_program,
  allocate_program, withdraw_program, given_program, Routine, health_program,
  handle_onboard_program, handle_allocate_program, handle_withdraw_program, auth_program,
  cors_program, serve_program,
}

module _ (p : Proxy) where
  open p use {World}

  -- A program run to its end by itself, by calls that return, from a state of the mutex: its response
  -- and the world, and whether it holds the mutex in the end. There is none if it stops for ever: it
  -- takes the mutex that it holds already, or lets go of it when it does not hold it.
  unfoldable pub perform : Program → Bool → World → Option ((Writer × World) × Bool)
  perform (respond w) held world = some ((w, world), held)
  perform (acquire next) true world = none
  perform (acquire next) false world = perform next true world
  perform (release next) true world = perform next false world
  perform (release next) false world = none
  perform (send url i next) held world =
      let (r, world') = p.post url i world in perform (next r) held world'
  perform (fetch url next) held world =
      let (r, world') = p.get url world in perform (next r) held world'
  perform (wait next) held world = perform next held (p.sleep world)

module _ (cfg : Config) (s : Service) where
  open s use {proxy}
  open proxy use {World}

  perform-wait_unless :
      (first : Bool) (t : Program) (world : World)
      → perform proxy (wait_unless cfg s first t) false world
        ≡ perform proxy t false (if first then world else proxy.sleep world)
  unfolding perform
  perform-wait_unless true t world = refl
  perform-wait_unless false t world = refl

  perform-settle :
      (f : Fetched) (after : Result ActionResult → Program) (more : Program) (world : World)
      (rest : World → Result ActionResult × World)
      → perform proxy more false world ≡ perform proxy (after (rest world).0) false (rest world).1
      → perform proxy (settle cfg s f after more) false world
        ≡ perform proxy (after (decide f world rest).0) false (decide f world rest).1
  perform-settle (ready result) after more world rest e = refl
  perform-settle (failed text) after more world rest e = refl
  perform-settle not_ready after more world rest e = e

  perform-poll_program :
      (id : Hash) (n : ℕ) (first : Bool) (after : Result ActionResult → Program) (world : World)
      → perform proxy (poll_program cfg s id n first after) false world
        ≡ perform proxy
            (after (poll_from proxy cfg.proxy_url id n first world).0)
            false
            (poll_from proxy cfg.proxy_url id n first world).1
  unfolding poll_program poll_from fetch_submit_result perform
  perform-poll_program id zero first after world = refl
  perform-poll_program id (suc n) first after world =
      perform-wait_unless first _ world
      ∙ perform-settle _ after (poll_program cfg s id n false after) _
          (λ v. poll_from proxy cfg.proxy_url id n false v)
          (perform-poll_program id n false after _)

  -- By itself and without the mutex, the program gives what the function gives, and no mutex is left
  -- held.
  abbrev Alone : Program → (World → Writer × World) → Type 0
  Alone t f = (world : World) → perform proxy t false world ≡ some (f world, false)

  acted-Alone :
      (failure : String) (sent : Result Hash) (w : Writer)
      → Alone (acted_program cfg s failure sent w) (acted cfg s failure sent w)
  unfolding acted respond_action poll perform
  acted-Alone failure (err e) w world = refl
  acted-Alone failure (ok id) w world = perform-poll_program id poll_rounds true _ world

  act-Alone :
      (op_command failure : String) (payload : Object) (w : Writer)
      → Alone
          (act_program cfg s op_command failure payload w)
          (act cfg s op_command failure payload w)
  unfolding act send_direct perform
  act-Alone op_command failure payload w world = acted-Alone failure _ w _

  policy_sent-Alone :
      (req : OnboardReq) (wallet risk : String) (sent : Result Hash) (w : Writer)
      → Alone
          (policy_sent_program cfg s req wallet risk sent w)
          (policy_sent cfg s req wallet risk sent w)
  unfolding policy_sent poll perform
  policy_sent-Alone req wallet risk (err e) w world = refl
  policy_sent-Alone req wallet risk (ok id) w world =
      perform-poll_program id poll_rounds true _ world

  set_policy-Alone :
      (req : OnboardReq) (wallet : Result String) (w : Writer)
      → Alone (set_policy_program cfg s req wallet w) (set_policy cfg s req wallet w)
  unfolding set_policy send_direct perform
  set_policy-Alone req (err e) w world = refl
  set_policy-Alone req (ok wallet) w world = policy_sent-Alone req wallet _ _ w _

  -- The same test chooses the same branch on both sides.
  if-Alone :
      (b : Bool) (t u : Program) (f g : World → Writer × World)
      → Alone t f
      → Alone u g
      → Alone (if b then t else u) (λ world. if b then f world else g world)
  if-Alone true t u f g h k = h
  if-Alone false t u f g h k = k

  respond-Alone : (w : Writer) → Alone (respond w) (λ world. (w, world))
  unfolding perform
  respond-Alone w world = refl

  onboard-Alone :
      (req : OnboardReq) (w : Writer) → Alone (onboard_program cfg s req w) (onboard cfg s req w)
  unfolding onboard onboard_program
  onboard-Alone req w =
      if-Alone (not (valid_addr req.user)) _ _ _ _ (respond-Alone _)
        (set_policy-Alone req (derive_wallet_address cfg s req.user) w)

  allocate-Alone :
      (req : ActionReq) (w : Writer) → Alone (allocate_program cfg s req w) (allocate cfg s req w)
  unfolding allocate allocate_program
  allocate-Alone req w =
      if-Alone (not (valid_addr req.user)) _ _ _ _ (respond-Alone _) (act-Alone _ _ _ w)

  withdraw-Alone :
      (req : ActionReq) (w : Writer) → Alone (withdraw_program cfg s req w) (withdraw cfg s req w)
  unfolding withdraw withdraw_program
  withdraw-Alone req w =
      if-Alone (not (valid_addr req.user)) _ _ _ _ (respond-Alone _)
        (if-Alone (not (valid_addr req.to)) _ _ _ _ (respond-Alone _) (act-Alone _ _ _ w))

  given-Alone :
      {A : Type 0} (t : A → Writer → Program) (f : A → Writer → World → Writer × World)
      → ((req : A) (w : Writer) → Alone (t req w) (f req w))
      → (w : Writer) (r : Read A)
      → Alone (given_program cfg s t w r) (λ world. on_given f w world r)
  given-Alone t f h w (replied w') = respond-Alone w'
  given-Alone t f h w (given req) = h req w

  -- A routine and the handler that it is the program of.
  abbrev Runs : Routine cfg s → Handler cfg s → Type 0
  Runs next f = (w : Writer) (r : Request) → Alone (next w r) (f w r)

  auth-Alone :
      (next : Routine cfg s) (f : Handler cfg s)
      → Runs next f
      → Runs (auth_program cfg s next) (require_auth cfg s f)
  unfolding auth_program require_auth
  auth-Alone next f h w r = if-Alone _ _ _ _ _ (respond-Alone _) (h w r)

  cors-Alone :
      (next : Routine cfg s) (f : Handler cfg s)
      → Runs next f
      → Runs (cors_program cfg s next) (with_cors cfg s f)
  unfolding cors_program with_cors
  cors-Alone next f h w r = if-Alone (r.method == "OPTIONS") _ _ _ _ (respond-Alone _) (h _ r)

  handlers-Alone :
      Runs (health_program cfg s) (handle_health cfg s)
      × Runs (handle_onboard_program cfg s) (handle_onboard cfg s)
      × Runs (handle_allocate_program cfg s) (handle_allocate cfg s)
      × Runs (handle_withdraw_program cfg s) (handle_withdraw cfg s)
  unfolding handle_health handle_onboard handle_allocate handle_withdraw
  handlers-Alone = (
    λ w r. respond-Alone _,
    λ w r. given-Alone _ _ onboard-Alone w _,
    λ w r. given-Alone _ _ allocate-Alone w _,
    λ w r. given-Alone _ _ withdraw-Alone w _,
  )

  -- A request whose thread is alone, with `sendMu` free at its start and calls that return, does not
  -- stop for ever: it gets the response, and leaves the world, of the handlers run one after the other,
  -- and `sendMu` is free at its end.
  pub perform-serve_program :
      (r : Request) (world : World)
      → perform proxy (serve_program cfg s r) false world ≡ some (serve cfg s r world, false)
  unfolding serve serve_program
  perform-serve_program r =
      let (health, onboards, allocates, withdraws) = handlers-Alone in
      if-Alone (r.path == "/health") _ _ _ _ (cors-Alone _ _ health fresh r) (
        if-Alone (r.path == "/onboard") _ _ _ _ (cors-Alone _ _ (auth-Alone _ _ onboards) fresh r) (
          if-Alone (r.path == "/allocate") _ _ _ _
            (cors-Alone _ _ (auth-Alone _ _ allocates) fresh r)
            (if-Alone (r.path == "/withdraw") _ _ _ _
              (cors-Alone _ _ (auth-Alone _ _ withdraws) fresh r) (respond-Alone _))))
