-- ===== src/LiveServer/Threads/Serving.antt =====
-- What the thread of a request sends and responds, against what the request may.
use mindorr.Prelude.{
  inl, inr, true, false, not, ◌&&◌, String, [], ◌∷◌, Result, ok, err, ◌≡◌, refl, arith, if_elim,
  concat, ◌==◌, eq_iff,
}
use mindorr.Text.{eq_of_is_empty, is_empty}
use mindorr.LiveServer.Address.{valid_addr}
use mindorr.LiveServer.Risk.{normalize_risk}
use mindorr.LiveServer.Proxy.{Instruction}
use mindorr.LiveServer.Requests.{Config, Request, Writer, Service, OnboardReq, write_err}
use mindorr.LiveServer.Handlers.{given, replied, read_json, derive_wallet_address}
use mindorr.LiveServer.Allowed.{Intends, a_policy, an_allocation, a_withdrawal, IsAuthorised}
use mindorr.LiveServer.Server.{fresh}
use mindorr.LiveServer.Threads.{
  Program, set_policy_program, onboard_program, allocate_program, withdraw_program, given_program,
  Routine, health_program, handle_onboard_program, handle_allocate_program, handle_withdraw_program,
  auth_program, cors_program, serve_program,
}
use mindorr.LiveServer.Threads.Replying.{
  IsRouted, routed, unrouted, write_err-IsReply, write_json-IsReply,
}
use mindorr.LiveServer.Threads.Fitting.{Fits-more, Fits, responds}
use mindorr.LiveServer.Threads.Sending.{
  most_turns, MaySend, duty, whole_duty, acted-Fits, policy_sent-Fits, locked_send-Fits, cors-Fits,
}

module _ (cfg : Config) (s : Service) where
  module _ (r : Request) where
    abbrev Fitting : Program → Type 0
    Fitting = Fits (duty cfg s r) false most_turns

    abbrev Responding : Program → Type 0
    Responding = Fits (whole_duty cfg s r) false most_turns

    -- A handler's responses are responses to a request with a path of a handler.
    responding : {t : Program} → IsRouted r.path → Fitting t → Responding t
    responding at_path f =
        Fits-more (duty cfg s r) (whole_duty cfg s r) _ _ _ (λ url i a. a) (λ w a. routed at_path a)
          f

    no_route :
        (r.path == "/health") ≡ false
        → (r.path == "/onboard") ≡ false
        → (r.path == "/allocate") ≡ false
        → (r.path == "/withdraw") ≡ false
        → ¬ IsRouted r.path
    no_route a b c d = ground (
      arith,
      eq_iff r.path "/health",
      eq_iff r.path "/onboard",
      eq_iff r.path "/allocate",
      eq_iff r.path "/withdraw",
    )

    auth-Fits :
        (next : Routine cfg s) (w : Writer)
        → (IsAuthorised cfg r → Fitting (next w r))
        → Fitting (auth_program cfg s next w r)
    unfolding auth_program
    auth-Fits next w h =
        if_elim Fitting (not (is_empty cfg.auth_token) && not (r.token == cfg.auth_token))
          (λ _. responds (write_err-IsReply _ _ w)) (λ e. h (authorised_of e))
      where
        authorised_of :
            (not (is_empty cfg.auth_token) && not (r.token == cfg.auth_token)) ≡ false
            → IsAuthorised cfg r
        authorised_of e =
            ground (arith, eq_iff r.token cfg.auth_token, eq_of_is_empty cfg.auth_token)

    module _ (authorised : IsAuthorised cfg r) where
      may :
          {i : Instruction}
          → r.method ≡ "POST"
          → Intends cfg s r i
          → MaySend cfg s r (concat (cfg.proxy_url ∷ "/direct" ∷ [])) i
      may m a = (refl, record { authorised = authorised; method = m; intends = a })

      read-Fits :
          {A : Type 0} (decode : String → Result A) (body : A → Writer → Program) (w : Writer)
          → ((req : A) → r.method ≡ "POST" → decode r.body ≡ ok req → Fitting (body req w))
          → Fitting (given_program cfg s body w (read_json decode w r))
      read-Fits {A} decode body w h =
          if_elim (λ x. Fitting (given_program cfg s body w x)) (not (r.method == "POST"))
            (λ _. responds (write_err-IsReply _ _ w))
            (λ post.
              decoded (decode r.body) (λ req e. h req (ground (arith, eq_iff r.method "POST")) e))
        where
          decoded :
              (d : Result A)
              → ((req : A) → d ≡ ok req → Fitting (body req w))
              → Fitting (
                  given_program cfg s body w (elim d [
                    | err e ↦ replied (write_err 400 (concat ("bad json: " ∷ e ∷ [])) w)
                    | ok v ↦ given v
                  ]))
          decoded (ok req) k = k req refl
          decoded (err e) k = responds (write_err-IsReply _ _ w)

      set_policy-Fits :
          (req : OnboardReq) (wallet : Result String) (w : Writer)
          → r.path ≡ "/onboard"
          → r.method ≡ "POST"
          → s.decode_onboard r.body ≡ ok req
          → valid_addr req.user ≡ true
          → Fitting (set_policy_program cfg s req wallet w)
      set_policy-Fits req (err e) w at_path m d v = responds (write_err-IsReply _ _ w)
      set_policy-Fits req (ok wallet) w at_path m d v =
          locked_send-Fits cfg s r _ _ _ (may m (a_policy at_path req d v refl)) (λ sent.
            policy_sent-Fits cfg s r req wallet (normalize_risk s.table req.risk_level) sent w)

      onboard-Fits : (w : Writer) → r.path ≡ "/onboard" → Fitting (handle_onboard_program cfg s w r)
      unfolding onboard_program
      onboard-Fits w at_path = read-Fits s.decode_onboard (onboard_program cfg s) w (λ req m d.
          if_elim Fitting (not (valid_addr req.user)) (λ _. responds (write_err-IsReply _ _ w))
            (λ v.
              set_policy-Fits req (derive_wallet_address cfg s req.user) w at_path m d
                (ground arith)))

      allocate-Fits :
          (w : Writer) → r.path ≡ "/allocate" → Fitting (handle_allocate_program cfg s w r)
      unfolding allocate_program
      allocate-Fits w at_path = read-Fits s.decode_action_req (allocate_program cfg s) w (λ req m d.
          if_elim Fitting (not (valid_addr req.user)) (λ _. responds (write_err-IsReply _ _ w))
            (λ v.
              locked_send-Fits cfg s r _ _ _
                (may m (an_allocation at_path req d (ground arith) refl))
                (λ sent. acted-Fits cfg s r "allocate send failed: " sent w)))

      withdraw-Fits :
          (w : Writer) → r.path ≡ "/withdraw" → Fitting (handle_withdraw_program cfg s w r)
      unfolding withdraw_program
      withdraw-Fits w at_path = read-Fits s.decode_action_req (withdraw_program cfg s) w (λ req m d.
          if_elim Fitting (not (valid_addr req.user)) (λ _. responds (write_err-IsReply _ _ w))
            (λ v.
              if_elim Fitting (not (valid_addr req.to)) (λ _. responds (write_err-IsReply _ _ w))
                (λ t.
                  locked_send-Fits cfg s r _ _ _
                    (may m (a_withdrawal at_path req d (ground arith) (ground arith) refl))
                    (λ sent. acted-Fits cfg s r "withdraw send failed: " sent w))))

    behind :
        (next : Routine cfg s)
        → IsRouted r.path
        → (IsAuthorised cfg r → (w : Writer) → Fitting (next w r))
        → Responding (cors_program cfg s (auth_program cfg s next) fresh r)
    behind next at_path k =
        responding at_path
          (cors-Fits cfg s r (auth_program cfg s next) (λ w. auth-Fits next w (λ a. k a w)))

    -- The thread of a request has at most 122 turns. It sends only what the request may, with the
    -- mutex held, which it does not hold at any other call, and its response is one to the request.
    pub serve_program-Fits : Fits (whole_duty cfg s r) false most_turns (serve_program cfg s r)
    unfolding serve_program
    serve_program-Fits =
        if_elim Responding (r.path == "/health")
          (λ e. responding (inl ((eq_iff _ _).0 e)) (
            cors-Fits cfg s r (health_program cfg s)
              (λ w. responds (write_json-IsReply true _ w refl))))
          (λ health.
            if_elim Responding (r.path == "/onboard")
              (λ e.
                let at_path = (eq_iff _ _).0 e in
                behind (handle_onboard_program cfg s) (inr (inl at_path))
                  (λ a w. onboard-Fits a w at_path))
              (λ onboards.
                if_elim Responding (r.path == "/allocate")
                  (λ e.
                    let at_path = (eq_iff _ _).0 e in
                    behind (handle_allocate_program cfg s) (inr (inr (inl at_path)))
                      (λ a w. allocate-Fits a w at_path))
                  (λ allocates.
                    if_elim Responding (r.path == "/withdraw")
                      (λ e.
                        let at_path = (eq_iff _ _).0 e in
                        behind (handle_withdraw_program cfg s) (inr (inr (inr at_path)))
                          (λ a w. withdraw-Fits a w at_path))
                      (λ withdraws.
                        responds (unrouted (no_route health onboards allocates withdraws) refl)))))
