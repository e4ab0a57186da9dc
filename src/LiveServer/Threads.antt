-- ===== src/LiveServer/Threads.antt =====
-- Requests that are served at the same time: the handlers of
-- extension/tools/cmd/live-server/main.go as programs, with `sendMu`. `http.ListenAndServe` runs each
-- request in a thread of its own; a program is what is left of such a thread.
pub mod Turns
pub mod Alone
pub mod Replying
pub mod Fitting
pub mod Sending
pub mod Serving
pub mod Pools
pub mod Interleaved
pub mod Moving
pub mod Finishing
pub mod Responses
mod Tests
use mindorr.Prelude.{
  ℕ, zero, suc, Bool, true, false, not, ◌&&◌, String, List, [], ◌∷◌, Option, none, some, Result, ok,
  err, map, concat, ◌==◌, if◌then◌else◌,
}
use mindorr.Text.{is_empty}
use mindorr.Wire.{Hash}
use mindorr.LiveServer.Address.{valid_addr}
use mindorr.LiveServer.Risk.{normalize_risk}
use mindorr.LiveServer.Proxy.{
  Instruction, HttpReply, ActionResult, Object, json, bool, str, Fetched, ready, not_ready, failed,
  instruction, sent_id, fetched, poll_rounds, Proxy,
}
use mindorr.LiveServer.Requests.{
  ActionReq, Config, OnboardReq, Request, Service, Writer, allocate_intent, policy, set_header,
  withdraw_intent, write_err, write_json,
}
use mindorr.LiveServer.Handlers.{
  Read, given, replied, read_json, derive_wallet_address, onboarded, responded,
}
use mindorr.LiveServer.Server.{fresh}

-- A thread: the call that it makes next, and what follows each answer; at the end its response.
pub data Program : Type 0 where
  respond : Writer → Program
  -- `sendMu.Lock` and `sendMu.Unlock`.
  acquire : Program → Program
  release : Program → Program
  -- `http.Post` of an instruction, `client.Get`, `time.Sleep(time.Second)`.
  send : String → Instruction → (Result HttpReply → Program) → Program
  fetch : String → (Result HttpReply → Program) → Program
  wait : Program → Program

module _ (cfg : Config) (s : Service) where
  open s use {proxy, decode_onboard, decode_action_req, table}

  -- `sendDirect` between `sendMu.Lock` and `sendMu.Unlock`.
  abbrev pub locked_send : String → Object → (Result Hash → Program) → Program
  locked_send op_command payload after = acquire (
      send (concat (cfg.proxy_url ∷ "/direct" ∷ [])) (instruction "VAULT" op_command (json payload))
        (λ r. release (after (sent_id proxy r))))

  abbrev pub wait_unless : Bool → Program → Program
  wait_unless first p = if first then p else wait p

  abbrev pub settle : Fetched → (Result ActionResult → Program) → Program → Program
  settle (ready result) after more = after (ok result)
  settle (failed e) after more = after (err e)
  settle not_ready after more = more

  -- `poll`, with the rounds left.
  unfoldable pub poll_program : Hash → ℕ → Bool → (Result ActionResult → Program) → Program
  poll_program id zero first after =
      after (err (concat ("direct action " ∷ proxy.hex id ∷ " not processed after 60s" ∷ [])))
  poll_program id (suc n) first after =
      let more = poll_program id n false after in
      wait_unless first (
        fetch
          (concat (cfg.proxy_url ∷ "/action/result/" ∷ proxy.hex id ∷ "?submissionTag=submit" ∷ []))
          (λ r. settle (fetched proxy r) after more))

  abbrev pub policy_sent_program : OnboardReq → String → String → Result Hash → Writer → Program
  policy_sent_program req wallet risk (err e) w =
      respond (write_err 502 (concat ("policy send failed: " ∷ e ∷ [])) w)
  policy_sent_program req wallet risk (ok pid) w =
      poll_program pid poll_rounds true (λ res. respond (onboarded cfg s req wallet risk res w))

  abbrev pub set_policy_program : OnboardReq → Result String → Writer → Program
  set_policy_program req (err e) w = respond (write_err 500 (concat ("derive failed: " ∷ e ∷ [])) w)
  set_policy_program req (ok wallet) w =
      let risk = normalize_risk table req.risk_level in
      locked_send "SET_POLICY" (policy req.user risk)
        (λ sent. policy_sent_program req wallet risk sent w)

  unfoldable pub onboard_program : OnboardReq → Writer → Program
  unfolding poll_program derive_wallet_address
  onboard_program req w =
      if not (valid_addr req.user)
      then respond (write_err 400 "user must be a 20-byte address" w)
      else set_policy_program req (derive_wallet_address cfg s req.user) w

  abbrev pub acted_program : String → Result Hash → Writer → Program
  acted_program failure (err e) w = respond (write_err 502 (concat (failure ∷ e ∷ [])) w)
  acted_program failure (ok id) w =
      poll_program id poll_rounds true (λ res. respond (responded cfg s res w))

  abbrev pub act_program : String → String → Object → Writer → Program
  act_program op_command failure payload w =
      locked_send op_command payload (λ sent. acted_program failure sent w)

  unfoldable pub allocate_program : ActionReq → Writer → Program
  unfolding poll_program
  allocate_program req w =
      if not (valid_addr req.user)
      then respond (write_err 400 "user must be a 20-byte address" w)
      else act_program "ALLOCATE" "allocate send failed: " (allocate_intent req) w

  unfoldable pub withdraw_program : ActionReq → Writer → Program
  unfolding poll_program
  withdraw_program req w =
      if not (valid_addr req.user)
      then respond (write_err 400 "user must be a 20-byte address" w)
      else if not (valid_addr req.to)
      then respond (write_err 400 "to must be a 20-byte address" w)
      else act_program "WITHDRAW" "withdraw send failed: " (withdraw_intent req) w

  -- A handler's body runs on what was read.
  abbrev pub given_program {ℓ} : {A : Type ℓ} → (A → Writer → Program) → Writer → Read A → Program
  given_program body w (replied w') = respond w'
  given_program body w (given req) = body req w

  abbrev pub Routine : Type 0
  Routine = Writer → Request → Program

  -- The handlers.
  abbrev pub health_program : Routine
  health_program w r =
      respond (write_json 200 (("ok", bool true) ∷ ("proxy", str cfg.proxy_url) ∷ []) w)

  abbrev pub handle_onboard_program : Routine
  handle_onboard_program w r = given_program onboard_program w (read_json decode_onboard w r)

  abbrev pub handle_allocate_program : Routine
  handle_allocate_program w r = given_program allocate_program w (read_json decode_action_req w r)

  abbrev pub handle_withdraw_program : Routine
  handle_withdraw_program w r = given_program withdraw_program w (read_json decode_action_req w r)

  -- `requireAuth` and `withCORS`.
  unfoldable pub auth_program : Routine → Routine
  auth_program next w r =
      if not (is_empty cfg.auth_token) && not (r.token == cfg.auth_token)
      then respond (write_err 401 "unauthorized" w)
      else next w r

  unfoldable pub cors_program : Routine → Routine
  cors_program next w r =
      let w' = record w {
        headers = set_header "Access-Control-Allow-Methods" "POST, GET, OPTIONS" (
            set_header "Access-Control-Allow-Headers" "Content-Type, X-Mindorr-Token"
              (set_header "Access-Control-Allow-Origin" "*" w.headers));
      } in
      if r.method == "OPTIONS" then respond (record w' { code = 204 }) else next w' r

  -- The thread of a request.
  unfoldable pub serve_program : Request → Program
  unfolding auth_program cors_program onboard_program allocate_program withdraw_program
  serve_program r =
      if r.path == "/health"
      then cors_program health_program fresh r
      else if r.path == "/onboard"
      then cors_program (auth_program handle_onboard_program) fresh r
      else if r.path == "/allocate"
      then cors_program (auth_program handle_allocate_program) fresh r
      else if r.path == "/withdraw"
      then cors_program (auth_program handle_withdraw_program) fresh r
      else respond (s.unrouted r)
