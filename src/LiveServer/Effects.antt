-- ===== src/LiveServer/Effects.antt =====
-- What a request can do to the world: which instructions it sends, and when it sends none.
mod Polling
use mindorr.Prelude.{
  ◌&&◌, ℕ, zero, suc, Bool, true, false, not, String, [], ◌∷◌, Result, ok, err, ◌≡◌, refl, arith,
  if_elim, concat, if◌then◌else◌, ◌==◌, eq_iff,
}
use mindorr.Text.{eq_of_is_empty, is_empty}
use mindorr.Wire.{Hash}
use mindorr.LiveServer.Address.{valid_addr}
use mindorr.LiveServer.Proxy.{
  decide, poll_rounds, Instruction, ActionResult, Fetched, ready, failed, not_ready, send_direct,
  fetch_submit_result, poll_from, poll,
}
use mindorr.LiveServer.Handlers.{
  given, replied, read_json, policy_sent, set_policy, onboard, handle_onboard, acted, act, allocate,
  handle_allocate, withdraw, handle_withdraw, handle_health, derive_wallet_address, on_given,
}
use mindorr.LiveServer.Requests.{write_err, Config, Request, Writer, Service, OnboardReq, ActionReq}
use mindorr.LiveServer.Allowed.{
  Intends, a_policy, an_allocation, a_withdrawal, IsAuthorised, Allowed,
}
use mindorr.LiveServer.Effects.Polling.{acted-Keeps, policy_sent-Keeps}
use mindorr.LiveServer.Server.{require_auth, with_cors, fresh, serve}

-- A property of worlds that reading results and waiting keep.
module _ (cfg : Config) (s : Service) (P : s.proxy.World → Type 0)
    (keep_get : (url : String) (w : s.proxy.World) → P w → P (s.proxy.get url w).1)
    (keep_sleep : (w : s.proxy.World) → P w → P (s.proxy.sleep w)) where
  open s use {proxy}
  open proxy use {World, post, sleep}

  abbrev Kept : Writer × World → Type 0
  Kept out = P out.1

  -- A property of worlds that sending the instructions of a request keeps as well.
  module _ (r : Request) (authorised : IsAuthorised cfg r)
      (keep_post : (i : Instruction) (w : World)
        → Allowed cfg s r i
        → P w
        → P (post (concat (cfg.proxy_url ∷ "/direct" ∷ [])) i w).1) where
    read-Keeps :
        {A : Type 0} (decode : String → Result A) (body : A → Writer → World → Writer × World)
        (w : Writer) (world : World)
        → ((req : A) → r.method ≡ "POST" → decode r.body ≡ ok req → P (body req w world).1)
        → P world
        → P (on_given body w world (read_json decode w r)).1
    read-Keeps {A} decode body w world step h =
        if_elim (λ x. Kept (on_given body w world x)) (not (r.method == "POST")) (λ _. h)
          (λ post.
            decoded (decode r.body) (λ req e. step req (ground (arith, eq_iff r.method "POST")) e))
      where
        decoded :
            (d : Result A)
            → ((req : A) → d ≡ ok req → P (body req w world).1)
            → P
                (on_given body w world (elim d [
                  | err e ↦ replied (write_err 400 (concat ("bad json: " ∷ e ∷ [])) w)
                  | ok v ↦ given v
                ])).1
        decoded (ok req) k = k req refl
        decoded (err e) k = h

    allowed : {i : Instruction} → r.method ≡ "POST" → Intends cfg s r i → Allowed cfg s r i
    allowed m a = record { authorised = authorised; method = m; intends = a }

    set_policy-Keeps :
        (req : OnboardReq) (wallet : Result String) (w : Writer) (world : World)
        → r.path ≡ "/onboard"
        → r.method ≡ "POST"
        → s.decode_onboard r.body ≡ ok req
        → valid_addr req.user ≡ true
        → P world
        → P (set_policy cfg s req wallet w world).1
    unfolding set_policy send_direct
    set_policy-Keeps req (err e) w world at_path m d v h = h
    set_policy-Keeps req (ok wallet) w world at_path m d v h =
        policy_sent-Keeps cfg s P keep_get keep_sleep req wallet _ _ w _
          (keep_post _ world (allowed m (a_policy at_path req d v refl)) h)

    onboard-Keeps :
        (req : OnboardReq) (w : Writer) (world : World)
        → r.path ≡ "/onboard"
        → r.method ≡ "POST"
        → s.decode_onboard r.body ≡ ok req
        → P world
        → P (onboard cfg s req w world).1
    unfolding onboard
    onboard-Keeps req w world at_path m d h =
        if_elim Kept (not (valid_addr req.user)) (λ _. h)
          (λ v.
            set_policy-Keeps req (derive_wallet_address cfg s req.user) w world at_path m d
              (ground arith) h)

    allocate-Keeps :
        (req : ActionReq) (w : Writer) (world : World)
        → r.path ≡ "/allocate"
        → r.method ≡ "POST"
        → s.decode_action_req r.body ≡ ok req
        → P world
        → P (allocate cfg s req w world).1
    unfolding allocate act send_direct
    allocate-Keeps req w world at_path m d h =
        if_elim Kept (not (valid_addr req.user)) (λ _. h)
          (λ v.
            acted-Keeps cfg s P keep_get keep_sleep _ _ w _
              (keep_post _ world (allowed m (an_allocation at_path req d (ground arith) refl)) h))

    withdraw-Keeps :
        (req : ActionReq) (w : Writer) (world : World)
        → r.path ≡ "/withdraw"
        → r.method ≡ "POST"
        → s.decode_action_req r.body ≡ ok req
        → P world
        → P (withdraw cfg s req w world).1
    unfolding withdraw act send_direct
    withdraw-Keeps req w world at_path m d h =
        if_elim Kept (not (valid_addr req.user)) (λ _. h)
          (λ v.
            if_elim Kept (not (valid_addr req.to)) (λ _. h)
              (λ t. acted-Keeps cfg s P keep_get keep_sleep _ _ w _ (
                keep_post _ world
                  (allowed m (a_withdrawal at_path req d (ground arith) (ground arith) refl)) h)))

    handlers-Keeps :
        (w : Writer) (world : World)
        → P world
        → (r.path ≡ "/onboard" → P (handle_onboard cfg s w r world).1)
          × (r.path ≡ "/allocate" → P (handle_allocate cfg s w r world).1)
          × (r.path ≡ "/withdraw" → P (handle_withdraw cfg s w r world).1)
    unfolding handle_onboard handle_allocate handle_withdraw
    handlers-Keeps w world h = (
      λ e.
          read-Keeps s.decode_onboard (onboard cfg s) w world
            (λ req m d. onboard-Keeps req w world e m d h) h,
      λ e.
          read-Keeps s.decode_action_req (allocate cfg s) w world
            (λ req m d. allocate-Keeps req w world e m d h) h,
      λ e.
          read-Keeps s.decode_action_req (withdraw cfg s) w world
            (λ req m d. withdraw-Keeps req w world e m d h) h,
    )

  health-Keeps :
      (w : Writer) (r : Request) (world : World) → P world → P (handle_health cfg s w r world).1
  unfolding handle_health
  health-Keeps w r world h = h

  cors-Keeps :
      (next : Writer → Request → World → Writer × World) (r : Request) (w : Writer) (world : World)
      → ((w' : Writer) → P (next w' r world).1)
      → P world
      → P (with_cors cfg s next w r world).1
  unfolding with_cors
  cors-Keeps next r w world k h = if_elim Kept (r.method == "OPTIONS") (λ _. h) (λ _. k _)

  auth-Keeps :
      (next : Writer → Request → World → Writer × World) (r : Request) (w : Writer) (world : World)
      → (IsAuthorised cfg r → P (next w r world).1)
      → P world
      → P (require_auth cfg s next w r world).1
  unfolding require_auth
  auth-Keeps next r w world k h =
      if_elim Kept (not (is_empty cfg.auth_token) && not (r.token == cfg.auth_token)) (λ _. h)
        (λ e. k (authorised_of e))
    where
      authorised_of :
          (not (is_empty cfg.auth_token) && not (r.token == cfg.auth_token)) ≡ false
          → IsAuthorised cfg r
      authorised_of e = ground (arith, eq_iff r.token cfg.auth_token, eq_of_is_empty cfg.auth_token)

  -- Whatever reading results and waiting keep, and sending the instructions allowed for this
  -- request keeps, is kept by serving the request: nothing else is done to the world.
  pub serve-Keeps :
      (r : Request) (world : World)
      → ((i : Instruction) (w : World)
          → Allowed cfg s r i
          → P w
          → P (post (concat (cfg.proxy_url ∷ "/direct" ∷ [])) i w).1)
      → P world
      → P (serve cfg s r world).1
  unfolding serve
  serve-Keeps r world keep_post h =
      if_elim Kept (r.path == "/health")
        (λ _. cors-Keeps (handle_health cfg s) r fresh world (λ w. health-Keeps w r world h) h)
        (λ _.
          if_elim Kept (r.path == "/onboard")
            (λ e.
              behind (handle_onboard cfg s)
                (λ a w. (handlers-Keeps r a keep_post w world h).0 ((eq_iff _ _).0 e)))
            (λ _.
              if_elim Kept (r.path == "/allocate")
                (λ e.
                  behind (handle_allocate cfg s)
                    (λ a w. (handlers-Keeps r a keep_post w world h).1 ((eq_iff _ _).0 e)))
                (λ _.
                  if_elim Kept (r.path == "/withdraw")
                    (λ e.
                      behind (handle_withdraw cfg s)
                        (λ a w. (handlers-Keeps r a keep_post w world h).2 ((eq_iff _ _).0 e)))
                    (λ _. h))))
    where
      behind :
          (next : Writer → Request → World → Writer × World)
          → (IsAuthorised cfg r → (w : Writer) → P (next w r world).1)
          → P (with_cors cfg s (require_auth cfg s next) fresh r world).1
      behind next k =
          cors-Keeps (require_auth cfg s next) r fresh world
            (λ w. auth-Keeps next r w world (λ a. k a w) h) h
